-- ===== src/Recorder/Tests.antt =====
-- Runs of the recorder, and its laws at concrete calls.
use webhttp.Prelude.{true, false, ◌||◌, [], ◌∷◌, List, ◌≡◌, ◌==◌, refl, arith}
use webhttp.Recorder.{
  flushed, not_supported, Op, write_header, flush, hijack, read_from, new_status_recorder, run,
  switched_protocol,
}
use webhttp.Recorder.First.{
  first_commit, status_of, is_bare, run-first_commit, switched_protocol_iff,
}

abbrev download : List Op
download =
    flush not_supported ∷ read_from 0 ∷ write_header 206 ∷ read_from 10 ∷ write_header 500 ∷ []

abbrev upgrade : List Op
upgrade = hijack false ∷ hijack true ∷ []

runs :
    ((run download new_status_recorder).status ≡ 206)
    × ((run (write_header 103 ∷ write_header 200 ∷ []) new_status_recorder).status ≡ 103)
    × (switched_protocol (run upgrade new_status_recorder) ≡ true)
    × (switched_protocol (run (flush flushed ∷ upgrade) new_status_recorder) ≡ false)
unfolding run switched_protocol new_status_recorder
runs = (refl, refl, refl, refl)

run-first_commit_example :
    ((run download new_status_recorder).status ≡ 206)
    × ((run download new_status_recorder).wrote_header ≡ true)
run-first_commit_example = run-first_commit download

switched_protocol_iff_example :
    switched_protocol (run upgrade new_status_recorder)
    ≡ (status_of (first_commit upgrade) == 101 || is_bare (first_commit upgrade))
switched_protocol_iff_example = switched_protocol_iff upgrade (omega arith)
