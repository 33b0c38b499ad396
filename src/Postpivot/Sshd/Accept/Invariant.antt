-- ===== src/Postpivot/Sshd/Accept/Invariant.antt =====
-- What holds of the accept loops in every reachable state.
use xmorph.Base.{
  ℕ, zero, suc, Bool, true, false, some, List, [], ◌∷◌, ◌++◌, ◌&&◌, ◌||◌, not, ◌==◌, any, length,
  ◌≡◌, refl, ap, ◌∙◌, append-nil, arith, All, All-get_elem?, All-set_elem, length-set_elem,
  All-append, get_elem?, set_elem,
}
use xmorph.Postpivot.Sshd.Accept.{
  Phase, accepting, failed, draining, ended, Loop, SshServer, Move, closes, accepts, fails, checks,
  finishes, ends, is_ended, all_ended, has_error, ServeStep, cancel, move, return, fresh_loops,
  serving, Reach, listening, later,
}

-- The loop has, or will have, no error.
abbrev pub is_silent : Phase → Bool
is_silent accepting = false
is_silent failed = false
is_silent (draining e) = not e
is_silent (ended e) = not e

-- A listener is closed, and a loop silent, only once the context is done; an ended loop has no
-- connections.
pub record LoopInv (cancelled : Bool) (l : Loop) : Type 0 where
  pub opened : (l.is_open || cancelled) ≡ true
  pub drained : (not (is_ended l.phase) || l.conns == 0) ≡ true
  pub silent : (not (is_silent l.phase) || cancelled) ≡ true

abbrev pub is_nil : List Bool → Bool
is_nil [] = true
is_nil (e ∷ es) = false

abbrev pub none_ended : List Loop → Bool
none_ended ls = not (any (λ l. is_ended l.phase) ls)

pub record Inv (n : ℕ) (s : SshServer) : Type 0 where
  pub each : All (LoopInv s.cancelled) s.loops
  pub count : length s.loops ≡ n
  pub nils : All (λ e. (e || s.cancelled) ≡ true) s.sent
  pub some_sent : (none_ended s.loops || not (is_nil s.sent)) ≡ true
  pub done : (e : Bool) → s.returned ≡ some e → (all_ended s.loops ≡ true) × (e ≡ has_error s.sent)

Move-LoopInv : {c : Bool} {l m : Loop} {es : List Bool} → Move c l m es → LoopInv c l → LoopInv c m
Move-LoopInv (closes h) v = ground (arith, v)
Move-LoopInv (accepts o p) v = ground (arith, v)
Move-LoopInv (fails p) v = ground (arith, v)
Move-LoopInv (checks p) v = ground (arith, v)
Move-LoopInv (finishes e) v = ground (arith, v)
Move-LoopInv (ends p z) v = ground (arith, v)

-- The context being done keeps what holds of a loop.
LoopInv-cancel : {c : Bool} {l : Loop} → LoopInv c l → LoopInv true l
LoopInv-cancel v = ground (arith, v)

each-cancel : (c : Bool) (ls : List Loop) → All (LoopInv c) ls → All (LoopInv true) ls
each-cancel c [] h = tt
each-cancel c (l ∷ ls) (v, h) = (LoopInv-cancel v, each-cancel c ls h)

nils-cancel :
    (c : Bool) (es : List Bool) → All (λ e. (e || c) ≡ true) es → All (λ e. (e || true) ≡ true) es
nils-cancel c [] h = tt
nils-cancel c (e ∷ es) (v, h) = (ground arith, nils-cancel c es h)

-- What a move sends, and when.
Move-nils :
    {c : Bool} {l m : Loop} {es : List Bool}
    → Move c l m es
    → LoopInv c l
    → All (λ e. (e || c) ≡ true) es
Move-nils (closes h) v = tt
Move-nils (accepts o p) v = tt
Move-nils (fails p) v = tt
Move-nils (checks p) v = tt
Move-nils (finishes e) v = tt
Move-nils (ends {e} p z) v = (ground (arith, v), tt)

-- A move ends a loop only by sending.
Move-sends :
    {c : Bool} {l m : Loop} {es : List Bool}
    → Move c l m es
    → (not (is_ended m.phase) || is_ended l.phase || not (is_nil es)) ≡ true
Move-sends (closes h) = ground arith
Move-sends (accepts o p) = ground arith
Move-sends (fails p) = ground arith
Move-sends (checks p) = ground arith
Move-sends (finishes e) = ground arith
Move-sends (ends p z) = ground arith

-- An ended loop stays so, and sends nothing more.
Move_ended :
    {c : Bool} {l m : Loop} {es : List Bool}
    → Move c l m es
    → is_ended l.phase ≡ true
    → (is_ended m.phase ≡ true) × (es ≡ [])
Move_ended (closes h) v = (v, refl)
Move_ended (accepts o p) v = (v, refl)
Move_ended (fails p) v = ground (arith, v)
Move_ended (checks p) v = ground (arith, v)
Move_ended (finishes e) v = (v, refl)
Move_ended (ends p z) v = ground (arith, v)

all_ended-get_elem? :
    (ls : List Loop) (i : ℕ) {l : Loop}
    → all_ended ls ≡ true
    → get_elem? i ls ≡ some l
    → is_ended l.phase ≡ true
all_ended-get_elem? [] i a e = cc
all_ended-get_elem? (l ∷ ls) zero a e = ground (arith, a)
all_ended-get_elem? (l ∷ ls) (suc i) a e = all_ended-get_elem? ls i (ground (arith, a)) e

all_ended-set_elem :
    (ls : List Loop) (i : ℕ) (m : Loop)
    → all_ended ls ≡ true
    → is_ended m.phase ≡ true
    → all_ended (set_elem i m ls) ≡ true
all_ended-set_elem [] i m a e = refl
all_ended-set_elem (l ∷ ls) zero m a e = ground (arith, a)
all_ended-set_elem (l ∷ ls) (suc i) m a e = ground (arith, a, all_ended-set_elem ls i m)

-- Setting an element that has not ended, or had, keeps that none has.
none_ended-set_elem :
    (ls : List Loop) (i : ℕ) {l : Loop} (m : Loop)
    → get_elem? i ls ≡ some l
    → (not (is_ended m.phase) || is_ended l.phase) ≡ true
    → none_ended ls ≡ true
    → none_ended (set_elem i m ls) ≡ true
none_ended-set_elem [] i m g e h = cc
none_ended-set_elem (l ∷ ls) zero m g e h = ground (arith, h)
none_ended-set_elem (l ∷ ls) (suc i) m g e h = ground (arith, h, none_ended-set_elem ls i m g e)

is_nil-append : (es fs : List Bool) → is_nil (es ++ fs) ≡ (is_nil es && is_nil fs)
is_nil-append [] fs = refl
is_nil-append (e ∷ es) fs = refl

module _ (n : ℕ) where
  cancel-Inv : {s : SshServer} → Inv n s → Inv n (record s { cancelled = true })
  cancel-Inv {s} v = record {
    each = each-cancel s.cancelled s.loops v.each;
    count = v.count;
    nils = nils-cancel s.cancelled s.sent v.nils;
    some_sent = v.some_sent;
    done = v.done;
  }

  return-Inv :
      {s : SshServer}
      → all_ended s.loops ≡ true
      → Inv n s
      → Inv n (record s { returned = some (has_error s.sent) })
  return-Inv {s} a v = record {
    each = v.each;
    count = v.count;
    nils = v.nils;
    some_sent = v.some_sent;
    done = λ e h. (a, ground (arith, h));
  }

  move_some_sent :
      {s : SshServer} (i : ℕ) {l m : Loop} {es : List Bool}
      → get_elem? i s.loops ≡ some l
      → Move s.cancelled l m es
      → Inv n s
      → (none_ended (set_elem i m s.loops) || not (is_nil (s.sent ++ es))) ≡ true
  move_some_sent {s} i {m} {es} g mv v = ground (
    arith,
    is_nil-append s.sent es,
    Move-sends mv,
    none_ended-set_elem s.loops i m g,
    v.some_sent,
  )

  move-Inv :
      {s : SshServer} (i : ℕ) {l m : Loop} {es : List Bool}
      → get_elem? i s.loops ≡ some l
      → Move s.cancelled l m es
      → Inv n s
      → Inv n (record s { loops = set_elem i m s.loops; sent = s.sent ++ es })
  move-Inv {s} i {l} {m} {es} g mv v =
      let at_i : LoopInv s.cancelled l = All-get_elem? (LoopInv s.cancelled) s.loops i v.each g in
      record {
        each = All-set_elem (LoopInv s.cancelled) s.loops i v.each (Move-LoopInv mv at_i);
        count = length-set_elem s.loops i m ∙ v.count;
        nils = All-append (λ e. (e || s.cancelled) ≡ true) s.sent es v.nils (Move-nils mv at_i);
        some_sent = move_some_sent i g mv v;
        done = λ e h.
            (let (a, same) = v.done e h in
              let (ended_m, none_sent) = Move_ended mv (all_ended-get_elem? s.loops i a g) in
              (all_ended-set_elem s.loops i m a ended_m, rw none_sent (rw append-nil same)));
      }

  ServeStep-Inv : {s t : SshServer} → ServeStep s t → Inv n s → Inv n t
  ServeStep-Inv cancel v = cancel-Inv v
  ServeStep-Inv (move i g mv) v = move-Inv i g mv v
  ServeStep-Inv (return a r) v = return-Inv a v

fresh_loops-LoopInv : (n : ℕ) → All (LoopInv false) (fresh_loops n)
fresh_loops-LoopInv zero = tt
fresh_loops-LoopInv (suc n) = (ground arith, fresh_loops-LoopInv n)

length-fresh_loops : (n : ℕ) → length (fresh_loops n) ≡ n
length-fresh_loops zero = refl
length-fresh_loops (suc n) = ap suc (length-fresh_loops n)

none_ended-fresh_loops : (n : ℕ) → none_ended (fresh_loops n) ≡ true
none_ended-fresh_loops zero = refl
none_ended-fresh_loops (suc n) = none_ended-fresh_loops n

start-Inv : (n : ℕ) → Inv n (serving n)
start-Inv n = record {
  each = fresh_loops-LoopInv n;
  count = length-fresh_loops n;
  nils = tt;
  some_sent = ground (arith, none_ended-fresh_loops n);
  done = λ e h. cc;
}

pub Reach-Inv : {n : ℕ} {s : SshServer} → Reach n s → Inv n s
Reach-Inv {n} listening = start-Inv n
Reach-Inv {n} (later r st) = ServeStep-Inv n st (Reach-Inv r)
