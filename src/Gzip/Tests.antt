-- ===== src/Gzip/Tests.antt =====
-- Runs of the negotiation and of the writer, and their laws at concrete inputs.
use webhttp.Prelude.{
  true, false, [], ◌∷◌, ◌++◌, none, some, ◌≡◌, ◌↔◌, refl, List, ap, Option, Bytes, codes,
}
use webhttp.AsciiFold.{equal_ascii_fold, lower_ascii_string}
use webhttp.FieldList.{field_list}
use webhttp.Header.{Header, values, get, del, set}
use webhttp.Http
use webhttp.Http.{Response, fresh}
use webhttp.Gzip.{
  GzipConfig, zero_q_value, accepts_gzip, gzip_type_entry, candidate, compresses_status,
  add_vary_accept_encoding,
}
use webhttp.Gzip.Body.{Decodes, Delivers, finish-Delivers}
use webhttp.Gzip.Calls.{Call, sets_status, writes, flushes, edits, calls}
use webhttp.Gzip.Settled.{Feeds, started, wrote, flushed}
use webhttp.Gzip.Weight.{IsZeroWeight, zero_q_value_iff}
use webhttp.Gzip.Writer.{
  Compressor, new_writer, implicit_status, commit_compressed, commit_identity, send_held,
  mark_compressed, restore_header, write, finish,
}

abbrev accepting : Bytes → Header
accepting v = (codes "Accept-Encoding", v ∷ []) ∷ []

negotiation_runs :
    (accepts_gzip (accepting (codes "br, GZIP;q=0.5")) ≡ true)
    × (accepts_gzip (accepting (codes "gzip ; q=0.00, *")) ≡ false)
    × (accepts_gzip (accepting (codes "br, *")) ≡ true)
    × (accepts_gzip [] ≡ false)
unfolding accepts_gzip equal_ascii_fold
negotiation_runs = (refl, refl, refl, refl)

type_runs :
    (gzip_type_entry (codes "Text/HTML") ≡ some (codes "text/html"))
    × (gzip_type_entry (codes "text/*") ≡ none)
    × (gzip_type_entry (codes "+json") ≡ some (codes "+json"))
unfolding gzip_type_entry lower_ascii_string
type_runs = (refl, refl, refl)

-- marks the bytes it was given, all at once
abbrev marker : Compressor
marker = record {
  Zw = Bytes;
  reset = [];
  write_z = λ p zw. (zw ++ p, []);
  flush_z = λ zw. (zw, []);
  close_z = λ zw. b'<' ∷ zw;
}

abbrev text_response : Response
text_response = record fresh { header = (codes "Content-Type", codes "text/html" ∷ []) ∷ [] }

abbrev small : GzipConfig
small = record { skip = none; types = codes "text/html" ∷ []; min_bytes = 3 }

abbrev sent_by : Bytes → Response
sent_by b =
    (finish some (λ k. k) marker
      (write some (λ k. k) marker b (new_writer some (λ k. k) marker small true text_response))).rw

writer_runs :
    ((sent_by (codes "abcd")).body ≡ codes "<abcd")
    × (values (codes "Content-Encoding") (sent_by (codes "abcd")).sent ≡ codes "gzip" ∷ [])
    × (values (codes "Vary") (sent_by (codes "abcd")).sent ≡ codes "Accept-Encoding" ∷ [])
    × ((sent_by (codes "ab")).body ≡ codes "ab")
    × (values (codes "Content-Encoding") (sent_by (codes "ab")).sent ≡ [])
    × (values (codes "Vary") (sent_by (codes "ab")).sent ≡ codes "Accept-Encoding" ∷ [])
unfolding finish write new_writer values implicit_status candidate get compresses_status
    commit_compressed send_held Http.write mark_compressed del set restore_header
    add_vary_accept_encoding field_list commit_identity
writer_runs = (refl, refl, refl, refl, refl, refl)

zero_q_value_iff_example : (zero_q_value (codes "0.00") ≡ true) ↔ IsZeroWeight (codes "0.00")
zero_q_value_iff_example = zero_q_value_iff (codes "0.00")

abbrev unmark : Bytes → Option Bytes
unmark [] = none
unmark (c ∷ s) = some s

marker-Feeds :
    {zw out payload : Bytes}
    → Feeds some (λ k. k) marker zw out payload
    → (zw ≡ payload) × (out ≡ [])
marker-Feeds started = (refl, refl)
marker-Feeds (wrote p h) =
    let (same, empty) = marker-Feeds h in (ap (λ b. b ++ p) same, rw empty refl)
marker-Feeds (flushed h) = let (same, empty) = marker-Feeds h in (same, rw empty refl)

marker-Decodes : Decodes some (λ k. k) marker unmark
marker-Decodes zw out payload h = let (same, empty) = marker-Feeds h in rw (empty, same) refl

abbrev page_calls : List Call
page_calls =
    sets_status 200
    ∷ writes (codes "a")
    ∷ writes (codes "bcd")
    ∷ edits (del (codes "Vary"))
    ∷ flushes
    ∷ writes (codes "e")
    ∷ []

finish-Delivers_example :
    Delivers some
      (λ k. k)
      marker
      unmark
      (finish some
        (λ k. k)
        marker
        (calls some
          (λ k. k)
          marker
          page_calls
          (new_writer some (λ k. k) marker small true text_response))).rw
      (codes "abcde")
finish-Delivers_example =
    finish-Delivers some (λ k. k) marker unmark small true text_response page_calls marker-Decodes
      refl refl
