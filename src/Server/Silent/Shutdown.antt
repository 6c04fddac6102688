-- ===== src/Server/Silent/Shutdown.antt =====
-- What a shutdown closes: the connections that have sent nothing, and no others.
use webhttp.Prelude.{
  ℕ, ◌≤◌, Bool, true, false, ◌||◌, not, List, [], ◌∷◌, ◌++◌, ◌≡◌, refl, ◌∙◌, ap, ◌==◌, leb,
  if◌then◌else◌, arith,
}
use webhttp.Server.Silent.{
  no_conns, state_new, state_other, ConnEvent, conn_state, on_shutdown, run,
}
use webhttp.Server.Silent.Fate.{Fate, unseen, advance, fate, count_conn, run_refines}

-- whether the last report about the connection is that it is new
abbrev pub ends_new : ℕ → List ConnEvent → Bool → Bool
ends_new c [] before = before
ends_new c (conn_state d state_new ∷ es) before = ends_new c es (if d == c then true else before)
ends_new c (conn_state d state_other ∷ es) before = ends_new c es (if d == c then false else before)
ends_new c (on_shutdown ∷ es) before = ends_new c es before

abbrev pub shuts_down : List ConnEvent → Bool
shuts_down [] = false
shuts_down (on_shutdown ∷ es) = true
shuts_down (conn_state d state ∷ es) = shuts_down es

-- whether the connection is reported as new
abbrev pub opens : ℕ → List ConnEvent → Bool
opens c [] = false
opens c (conn_state d state_new ∷ es) = d == c || opens c es
opens c (_ ∷ es) = opens c es

-- A silent connection is tracked before the shutdown, and closed from then on.
abbrev cared : Fate → Bool → Bool
cared f new = not new || (if f.shutdown then leb 1 f.closes else f.silent)

fate-cared :
    (c : ℕ) (es : List ConnEvent) (f : Fate) (new : Bool)
    → cared f new ≡ true
    → cared (fate c es f) (ends_new c es new) ≡ true
fate-cared c [] f new h = h
fate-cared c (conn_state d state_new ∷ es) f new h =
    fate-cared c es (advance c (conn_state d state_new) f) (if d == c then true else new)
      (ground arith)
fate-cared c (conn_state d state_other ∷ es) f new h =
    fate-cared c es (advance c (conn_state d state_other) f) (if d == c then false else new)
      (ground arith)
fate-cared c (on_shutdown ∷ es) f new h =
    fate-cared c es (advance c on_shutdown f) new (ground arith)

fate-shutdown :
    (c : ℕ) (es : List ConnEvent) (f : Fate)
    → (fate c es f).shutdown ≡ (f.shutdown || shuts_down es)
fate-shutdown c [] f = ground arith
fate-shutdown c (conn_state d state_new ∷ es) f =
    ground (arith, fate-shutdown c es (advance c (conn_state d state_new) f))
fate-shutdown c (conn_state d state_other ∷ es) f =
    ground (arith, fate-shutdown c es (advance c (conn_state d state_other) f))
fate-shutdown c (on_shutdown ∷ es) f = ground (arith, fate-shutdown c es (advance c on_shutdown f))

-- Once the server has shut down, every connection whose last report is that it is new has been closed:
-- those that were there, and those that came after.
pub run-closes :
    (c : ℕ) (es : List ConnEvent)
    → shuts_down es ≡ true
    → ends_new c es false ≡ true
    → 1 ≤ count_conn c (run es no_conns).closed
run-closes c es down new =
    let kept = fate-cared c es unseen false refl in
    let over = fate-shutdown c es unseen in let agrees = run_refines c es in ground arith

fate_open :
    (c : ℕ) (es : List ConnEvent) (f : Fate)
    → f.shutdown ≡ false
    → shuts_down es ≡ false
    → ((fate c es f).silent ≡ ends_new c es f.silent) × ((fate c es f).closes ≡ f.closes)
fate_open c [] f h k = (refl, refl)
fate_open c (conn_state d state_new ∷ es) f h k =
    ground (arith, fate_open c es (advance c (conn_state d state_new) f))
fate_open c (conn_state d state_other ∷ es) f h k =
    ground (arith, fate_open c es (advance c (conn_state d state_other) f))
fate_open c (on_shutdown ∷ es) f h k = cc

fate_spoken :
    (c : ℕ) (es : List ConnEvent) (f : Fate)
    → f.silent ≡ false
    → opens c es ≡ false
    → (fate c es f).closes ≡ f.closes
fate_spoken c [] f h k = refl
fate_spoken c (conn_state d state_new ∷ es) f h k =
    ground (arith, fate_spoken c es (advance c (conn_state d state_new) f))
fate_spoken c (conn_state d state_other ∷ es) f h k =
    ground (arith, fate_spoken c es (advance c (conn_state d state_other) f))
fate_spoken c (on_shutdown ∷ es) f h k = ground (arith, fate_spoken c es (advance c on_shutdown f))

fate-append :
    (c : ℕ) (es fs : List ConnEvent) (f : Fate) → fate c (es ++ fs) f ≡ fate c fs (fate c es f)
fate-append c [] fs f = refl
fate-append c (e ∷ es) fs f = fate-append c es fs (advance c e f)

-- A connection that has sent something when the shutdown begins, and does not come anew, is never
-- closed here: the server drains it.
pub run-spares :
    (c : ℕ) (before after : List ConnEvent)
    → shuts_down before ≡ false
    → ends_new c before false ≡ false
    → opens c after ≡ false
    → count_conn c (run (before ++ on_shutdown ∷ after) no_conns).closed ≡ 0
run-spares c before after up spoken gone =
    let f = fate c before unseen in
    let (silent, closes) = fate_open c before unseen refl up in
    let later = fate_spoken c after (advance c on_shutdown f) refl gone in
    let agrees = run_refines c (before ++ on_shutdown ∷ after) in
    agrees.closes
    ∙ ap (λ g. g.closes) (fate-append c before (on_shutdown ∷ after) unseen)
    ∙ ground arith
