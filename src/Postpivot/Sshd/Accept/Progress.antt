-- ===== src/Postpivot/Sshd/Accept/Progress.antt =====
-- `serveSSH` is never stuck: from every reachable state some steps make it return.
use xmorph.Base.{
  ℕ, zero, suc, Bool, true, false, none, some, List, [], ◌∷◌, not, ◌+◌, ◌≤◌, ◌<◌, ◌≡◌, refl, arith,
  get_elem?, set_elem, Bool-cases, inl, inr,
}
use xmorph.Postpivot.Sshd.Accept.{
  Phase, accepting, failed, draining, ended, Loop, SshServer, Move, fails, checks, finishes, ends,
  is_ended, all_ended, has_error, ServeStep, move, return,
}

pub data Runs : SshServer → SshServer → Type 0 where
  here : {s : SshServer} → Runs s s
  next : {s t u : SshServer} → ServeStep s t → Runs t u → Runs s u

-- How many steps a loop has still to take.
abbrev left_of : Phase → ℕ
left_of accepting = 3
left_of failed = 2
left_of (draining e) = 1
left_of (ended e) = 0

abbrev weight : Loop → ℕ
weight l = left_of l.phase + l.conns

abbrev pub total : List Loop → ℕ
total [] = 0
total (l ∷ ls) = weight l + total ls

record Advance (c : Bool) (l : Loop) : Type 0 where
  becomes : Loop
  sends : List Bool
  takes : Move c l becomes sends
  lighter : weight becomes < weight l

drain-Advance : (c e : Bool) (l : Loop) (n : ℕ) → l.phase ≡ draining e → l.conns ≡ n → Advance c l
drain-Advance c e l zero p z = record {
  becomes = record l { phase = ended e };
  sends = e ∷ [];
  takes = ends p z;
  lighter = ground (arith, p, z);
}
drain-Advance c e l (suc n) p z = record {
  becomes = record l { conns = n };
  sends = [];
  takes = finishes z;
  lighter = ground (arith, p, z);
}

phase-Advance : (c : Bool) (l : Loop) (p : Phase) → l.phase ≡ p → is_ended p ≡ false → Advance c l
phase-Advance c l accepting e h = record {
  becomes = record l { phase = failed };
  sends = [];
  takes = fails e;
  lighter = ground (arith, e);
}
phase-Advance c l failed e h = record {
  becomes = record l { phase = draining (not c) };
  sends = [];
  takes = checks e;
  lighter = ground (arith, e);
}
phase-Advance c l (draining d) e h = drain-Advance c d l l.conns e refl
phase-Advance c l (ended d) e h = cc

-- Some loop that has not returned, with a step of it.
record Next (c : Bool) (ls : List Loop) : Type 0 where
  index : ℕ
  loop : Loop
  step : Advance c loop
  at_index : get_elem? index ls ≡ some loop
  less : total (set_elem index step.becomes ls) < total ls

all_ended-Next : (c : Bool) (ls : List Loop) → all_ended ls ≡ false → Next c ls
all_ended-Next c [] h = cc
all_ended-Next c (l ∷ ls) h = elim (Bool-cases (is_ended l.phase)) [
  | inl e ↦
      let later = all_ended-Next c ls (ground (arith, e)) in
      record {
        index = suc later.index;
        loop = later.loop;
        step = later.step;
        at_index = later.at_index;
        less = omega (arith, later.less);
      }
  | inr e ↦
      let now = phase-Advance c l l.phase refl e in
      record { index = 0; loop = l; step = now; at_index = refl; less = omega (arith, now.lighter) }
]

Returned : SshServer → Type 0
Returned s = (t : SshServer) × (e : Bool) × Runs s t × (t.returned ≡ some e)

return_now : (s : SshServer) → all_ended s.loops ≡ true → s.returned ≡ none → Returned s
unfolding Returned
return_now s a r =
    let last : SshServer = record s { returned = some (has_error s.sent) } in
    (last, has_error s.sent, next (return a r) here, refl)

return_later : {s t : SshServer} → ServeStep s t → Returned t → Returned s
unfolding Returned
return_later st (u, e, runs, h) = (u, e, next st runs, h)

-- The fuel bounds the steps that the loops have still to take.
fuel-Returned : (fuel : ℕ) (s : SshServer) → total s.loops ≤ fuel → s.returned ≡ none → Returned s
fuel-Returned zero s h r = elim (Bool-cases (all_ended s.loops)) [
  | inl a ↦ return_now s a r
  | inr a ↦ absurd (omega (arith, (all_ended-Next s.cancelled s.loops a).less))
]
fuel-Returned (suc fuel) s h r = elim (Bool-cases (all_ended s.loops)) [
  | inl a ↦ return_now s a r
  | inr a ↦
      let n = all_ended-Next s.cancelled s.loops a in
      return_later (move n.index n.at_index n.step.takes)
        (fuel-Returned fuel _ (omega (arith, n.less)) r)
]

pub can_return :
    (s : SshServer)
    → s.returned ≡ none
    → (t : SshServer) × (e : Bool) × Runs s t × (t.returned ≡ some e)
unfolding Returned
can_return s r = fuel-Returned (total s.loops) s (omega arith) r
