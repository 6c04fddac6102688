-- ===== src/Server/Silent/Fate.antt =====
-- The tracker seen from one connection: a small automaton that knows of no other connection.
use webhttp.Prelude.{
  ℕ, suc, ◌+◌, Bool, true, false, not, List, [], ◌∷◌, ◌++◌, ◌≡◌, refl, ◌==◌, if◌then◌else◌, keep,
  arith, ==_iff,
}
use webhttp.Server.Silent.{
  has_conn, SilentConns, no_conns, state_new, state_other, ConnEvent, conn_state, on_shutdown, step,
  run,
}

-- One connection: whether it is silent, whether the server shuts down, how often it was closed.
pub record Fate : Type 0 where
  pub silent : Bool
  pub shutdown : Bool
  pub closes : ℕ

abbrev pub unseen : Fate
unseen = record { silent = false; shutdown = false; closes = 0 }

abbrev once : Bool → ℕ
once true = 1
once false = 0

-- A report about another connection changes nothing.
abbrev pub advance : ℕ → ConnEvent → Fate → Fate
advance c (conn_state d state_new) f =
    if not (d == c)
    then f
    else if f.shutdown
    then record f { closes = suc f.closes }
    else record f { silent = true }
advance c (conn_state d state_other) f = if not (d == c) then f else record f { silent = false }
advance c on_shutdown f = record {
  silent = false;
  shutdown = true;
  closes = f.closes + once f.silent;
}

abbrev pub fate : ℕ → List ConnEvent → Fate → Fate
fate c [] f = f
fate c (e ∷ es) f = fate c es (advance c e f)

abbrev pub count_conn : ℕ → List ℕ → ℕ
count_conn c [] = 0
count_conn c (d ∷ ds) = if d == c then suc (count_conn c ds) else count_conn c ds

-- The tracker's state, as far as one connection is concerned.
pub record Agrees (c : ℕ) (s : SilentConns) (f : Fate) : Type 0 where
  pub silent : has_conn c s.conns ≡ f.silent
  pub shutdown : s.shutdown ≡ f.shutdown
  pub closes : count_conn c s.closed ≡ f.closes
  -- a connection is tracked once
  pub distinct : count_conn c s.conns ≡ once f.silent

count_conn-append :
    (c : ℕ) (xs ys : List ℕ) → count_conn c (xs ++ ys) ≡ count_conn c xs + count_conn c ys
count_conn-append c [] ys = omega arith
count_conn-append c (x ∷ xs) ys = ground (arith, count_conn-append c xs ys)

has_conn-delete :
    (c d : ℕ) (cs : List ℕ)
    → has_conn c (keep (λ x. not (x == d)) cs) ≡ (if d == c then false else has_conn c cs)
has_conn-delete c d [] = ground arith
has_conn-delete c d (x ∷ cs) = ground (arith, has_conn-delete c d cs)

count_conn-delete :
    (c d : ℕ) (cs : List ℕ)
    → count_conn c (keep (λ x. not (x == d)) cs) ≡ (if d == c then 0 else count_conn c cs)
count_conn-delete c d [] = ground arith
count_conn-delete c d (x ∷ cs) = ground (arith, count_conn-delete c d cs)

step-Agrees :
    (c : ℕ) (e : ConnEvent) (s : SilentConns) (f : Fate)
    → Agrees c s f
    → Agrees c (step e s) (advance c e f)
unfolding step
step-Agrees c (conn_state d state_new) s f h = record {
  silent = ground (arith, ==_iff d c);
  shutdown = ground arith;
  closes = ground (arith, count_conn-append c s.closed (d ∷ []));
  distinct = ground (arith, ==_iff d c);
}
step-Agrees c (conn_state d state_other) s f h = record {
  silent = ground (arith, has_conn-delete c d s.conns);
  shutdown = ground arith;
  closes = ground arith;
  distinct = ground (arith, count_conn-delete c d s.conns);
}
step-Agrees c on_shutdown s f h = record {
  silent = refl;
  shutdown = refl;
  closes = ground (arith, count_conn-append c s.closed s.conns);
  distinct = refl;
}

run-Agrees :
    (c : ℕ) (es : List ConnEvent) (s : SilentConns) (f : Fate)
    → Agrees c s f
    → Agrees c (run es s) (fate c es f)
unfolding run
run-Agrees c [] s f h = h
run-Agrees c (e ∷ es) s f h = run-Agrees c es (step e s) (advance c e f) (step-Agrees c e s f h)

-- Through any reports, in any order, the tracker does to each connection what the automaton of that
-- connection does: it is tracked once while it is silent, and closed as often as the automaton says.
pub run_refines : (c : ℕ) (es : List ConnEvent) → Agrees c (run es no_conns) (fate c es unseen)
run_refines c es =
    run-Agrees c es no_conns unseen
      (record { silent = refl; shutdown = refl; closes = refl; distinct = refl })
