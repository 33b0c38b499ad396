-- ===== src/Postpivot/Sshd/Accept/Returns.antt =====
-- When `serveSSH` returns, and what it leaves.
use xmorph.Base.{
  ℕ, Bool, true, false, Option, none, some, List, [], ◌∷◌, ◌||◌, length, ◌≡◌, refl, sym, ◌≢◌, ◌∙◌,
  arith, All,
}
use xmorph.Postpivot.Sshd.Accept.{Loop, SshServer, is_ended, all_ended, has_error, Reach}
use xmorph.Postpivot.Sshd.Accept.Progress.{Runs, can_return}
use xmorph.Postpivot.Sshd.Accept.Invariant.{is_nil, none_ended, LoopInv, Inv, Reach-Inv}

-- What is left of a loop when `serveSSH` has returned.
pub record Left (cancelled : Bool) (l : Loop) : Type 0 where
  pub over : is_ended l.phase ≡ true
  pub no_conns : l.conns ≡ 0
  pub still_open : (l.is_open || cancelled) ≡ true

each-Left : (c : Bool) (ls : List Loop) → all_ended ls ≡ true → All (LoopInv c) ls → All (Left c) ls
each-Left c [] a h = tt
each-Left c (l ∷ ls) a (v, h) = (ground (arith, a, v), each-Left c ls (ground (arith, a)) h)

silent-cancelled :
    (c : Bool) (es : List Bool)
    → is_nil es ≡ false
    → All (λ e. (e || c) ≡ true) es
    → (has_error es || c) ≡ true
silent-cancelled c [] h k = cc
silent-cancelled c (e ∷ es) h (k, ks) = ground (arith, k)

ended-none_ended : (ls : List Loop) → length ls ≢ 0 → all_ended ls ≡ true → none_ended ls ≡ false
ended-none_ended [] h a = absurd (h refl)
ended-none_ended (l ∷ ls) h a = ground (arith, a)

-- Of a server that has returned or not yet.
abbrev pub Served : SshServer → Option Bool → Type 0
Served s none = (t : SshServer) × (e : Bool) × Runs s t × (t.returned ≡ some e)
Served s (some e) = All (Left s.cancelled) s.loops × ((e || s.cancelled) ≡ true)

Inv-Served :
    {n : ℕ} {s : SshServer} (r : Option Bool) → n ≢ 0 → Inv n s → s.returned ≡ r → Served s r
Inv-Served {s} none some_loop v h = can_return s h
Inv-Served {s} (some e) some_loop v h =
    let (a, same) = v.done e h in
    let nonempty = ended-none_ended s.loops (λ z. some_loop (sym v.count ∙ z)) a in
    (
      each-Left s.cancelled s.loops a v.each,
      rw same (silent-cancelled s.cancelled s.sent (ground (arith, v.some_sent, nonempty)) v.nils),
    )

-- In every state that serveSSH with at least one listener reaches, whatever the order of the steps:
-- if it has returned, then every accept loop has returned and no connection is left, it returned
-- without an error only if the context is done, and unless the context is done every listener is
-- still open. If it has not returned, then some steps lead to a state in which it has.
pub Reach-Served : {n : ℕ} {s : SshServer} → n ≢ 0 → Reach n s → Served s s.returned
Reach-Served {s} some_loop r = Inv-Served s.returned some_loop (Reach-Inv r) refl
