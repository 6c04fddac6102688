-- ===== src/Recorder/First.antt =====
-- The recorder keeps the status of the first call that commits the response.
use webhttp.Prelude.{
  ℕ, suc, ◌≤◌, Bool, true, false, ◌||◌, List, [], ◌∷◌, Option, none, some, ◌≡◌, refl, ◌==◌, ltb,
  if◌then◌else◌, arith,
}
use webhttp.Recorder.{
  not_supported, Op, write_header, write, flush, hijack, read_from, StatusRecorder,
  new_status_recorder, step, run, switched_protocol,
}

-- whether the call puts something on the wire, or gives the wire away
abbrev pub commits : Op → Bool
commits (write_header code) = true
commits write = true
commits (flush not_supported) = false
commits (flush _) = true
commits (hijack ok) = ok
commits (read_from n) = ltb 0 n

abbrev pub first_commit : List Op → Option Op
first_commit [] = none
first_commit (op ∷ ops) = if commits op then some op else first_commit ops

-- the status of a response that this call commits
abbrev pub status_of : Option Op → ℕ
status_of (some (write_header code)) = code
status_of _ = 200

abbrev pub is_hijack : Op → Bool
is_hijack (hijack ok) = ok
is_hijack _ = false

abbrev pub is_bare : Option Op → Bool
is_bare none = false
is_bare (some op) = is_hijack op

abbrev pub is_some {ℓ} : {A : Type ℓ} → Option A → Bool
is_some none = false
is_some (some a) = true

-- how many hijacks succeed
abbrev pub hijacks : List Op → ℕ
hijacks [] = 0
hijacks (op ∷ ops) = if is_hijack op then suc (hijacks ops) else hijacks ops

run_committed :
    (ops : List Op) (s : StatusRecorder)
    → s.wrote_header ≡ true
    → ((run ops s).status ≡ s.status) × ((run ops s).wrote_header ≡ true)
unfolding run
run_committed [] s h = (refl, h)
run_committed (op ∷ ops) s h = ground (arith, run_committed ops (step op s))

run_no_hijack :
    (ops : List Op) (s : StatusRecorder)
    → s.wrote_header ≡ true
    → hijacks ops ≡ 0
    → (run ops s).hijacked_bare ≡ s.hijacked_bare
unfolding run
run_no_hijack [] s h n = refl
run_no_hijack (op ∷ ops) s h n = ground (arith, run_no_hijack ops (step op s))

run_open :
    (ops : List Op) (s : StatusRecorder)
    → s.status ≡ 200
    → s.wrote_header ≡ false
    → ((run ops s).status ≡ status_of (first_commit ops))
      × ((run ops s).wrote_header ≡ is_some (first_commit ops))
unfolding run
run_open [] s e h = (e, h)
run_open (op ∷ ops) s e h = ground (arith, run_open ops (step op s), run_committed ops (step op s))

-- After any calls, the recorded status is the code of the first call that committed the response, if
-- that was a WriteHeader, and 200 otherwise; and `Wrote` says whether there was such a call.
pub run-first_commit :
    (ops : List Op)
    → ((run ops new_status_recorder).status ≡ status_of (first_commit ops))
      × ((run ops new_status_recorder).wrote_header ≡ is_some (first_commit ops))
unfolding new_status_recorder
run-first_commit ops = run_open ops new_status_recorder refl refl

-- once something was sent, a hijack is not bare
run_not_bare :
    (ops : List Op) (s : StatusRecorder)
    → s.wrote_header ≡ true
    → s.hijacked_bare ≡ false
    → (run ops s).hijacked_bare ≡ false
unfolding run
run_not_bare [] s h b = b
run_not_bare (op ∷ ops) s h b = ground (arith, run_not_bare ops (step op s))

run_bare :
    (ops : List Op) (s : StatusRecorder)
    → s.wrote_header ≡ false
    → s.hijacked_bare ≡ false
    → hijacks ops ≤ 1
    → (run ops s).hijacked_bare ≡ is_bare (first_commit ops)
unfolding run
run_bare [] s h b n = b
run_bare (op ∷ ops) s h b n =
    ground
      (arith, run_bare ops (step op s), run_no_hijack ops (step op s), run_not_bare ops (step op s))

-- Where at most one hijack succeeds: the response is taken to have switched protocols exactly if the
-- recorded status is 101, or a hijack was what committed it.
pub switched_protocol_iff :
    (ops : List Op)
    → hijacks ops ≤ 1
    → switched_protocol (run ops new_status_recorder)
      ≡ (status_of (first_commit ops) == 101 || is_bare (first_commit ops))
unfolding switched_protocol new_status_recorder
switched_protocol_iff ops one =
    rw ((run-first_commit ops).0, run_bare ops new_status_recorder refl refl one) refl
