-- ===== src/Config/Layers/Unique.antt =====
-- Deduplication keeps the last layer of each key, in the order of the command line.
use mathlib.Core.List.{reverse, reverse-append, reverse-cons, map-append}
use xmorph.Base.{
  Bool, true, false, List, [], ◌∷◌, ◌++◌, ◌||◌, if◌then◌else◌, map, arith, ◌≡◌, refl, sym, ◌∙◌,
  append_assoc, append-nil,
}
use xmorph.Base.Bytes.{Bytes, equal, equal_iff}
use xmorph.Config.Types.{Layer}
use xmorph.Config.Layers.{layer_key, seen_key, collect, deduplicate_layers}

abbrev pub keys : List Layer → List Bytes
keys = map layer_key

-- The layers that no later layer repeats.
pub keep_last : List Layer → List Layer
keep_last [] = []
keep_last (l ∷ ls) =
    let rest = keep_last ls in if seen_key (layer_key l) (keys ls) then rest else l ∷ rest

-- The loop with no accumulator.
fresh : List Layer → List Bytes → List Layer
fresh [] seen = []
fresh (l ∷ ls) seen =
    let skip = fresh ls seen in
    let keep = l ∷ fresh ls (layer_key l ∷ seen) in
    if seen_key (layer_key l) seen then skip else keep

collect-fresh :
    (ls : List Layer) (seen : List Bytes) (out : List Layer)
    → collect ls seen out ≡ out ++ fresh ls seen
unfolding collect fresh
collect-fresh [] seen out = sym (append-nil out)
collect-fresh (l ∷ ls) seen out = ground (
  arith,
  collect-fresh ls seen out,
  collect-fresh ls (layer_key l ∷ seen) (out ++ (l ∷ [])),
  append_assoc out (l ∷ []) (fresh ls (layer_key l ∷ seen)),
)

abbrev one_if_new : Layer → Bool → List Layer
one_if_new l old = if old then [] else l ∷ []

seen_key-cons :
    (key k : Bytes) (seen : List Bytes)
    → seen_key key (k ∷ seen) ≡ (equal k key || seen_key key seen)
unfolding seen_key
seen_key-cons key k seen = refl

seen_key-append :
    (k : Bytes) (a b : List Bytes) → seen_key k (a ++ b) ≡ (seen_key k a || seen_key k b)
unfolding seen_key
seen_key-append k [] b = refl
seen_key-append k (x ∷ a) b = ground (arith, seen_key-append k a b)

seen_key-nil : (k : Bytes) → seen_key k [] ≡ false
unfolding seen_key
seen_key-nil k = refl

fresh-append :
    (ls : List Layer) (l : Layer) (seen : List Bytes)
    → fresh (ls ++ (l ∷ [])) seen
      ≡ fresh ls seen
        ++ one_if_new l (seen_key (layer_key l) (keys ls) || seen_key (layer_key l) seen)
unfolding fresh
fresh-append [] l seen = ground (arith, seen_key-nil (layer_key l))
fresh-append (x ∷ ls) l seen = ground (
  arith,
  fresh-append ls l seen,
  fresh-append ls l (layer_key x ∷ seen),
  seen_key-cons (layer_key l) (layer_key x) (keys ls),
  seen_key-cons (layer_key l) (layer_key x) seen,
  equal_iff (layer_key x) (layer_key l),
)

seen_key-reverse :
    (k : Bytes) (ls : List Layer) → seen_key k (keys (reverse ls)) ≡ seen_key k (keys ls)
seen_key-reverse k [] = refl
seen_key-reverse k (l ∷ ls) =
    rw (reverse-cons l ls, map-append)
      (ground (
        arith,
        seen_key-append k (keys (reverse ls)) (layer_key l ∷ []),
        seen_key-cons k (layer_key l) [],
        seen_key-cons k (layer_key l) (keys ls),
        seen_key-nil k,
        seen_key-reverse k ls,
      ))

reverse-append-one_if_new :
    (a : List Layer) (l : Layer) (old : Bool)
    → reverse (a ++ one_if_new l old) ≡ (if old then reverse a else l ∷ reverse a)
reverse-append-one_if_new a l true = rw append-nil
reverse-append-one_if_new a l false = rw reverse-append

fresh-keep_last : (ls : List Layer) → reverse (fresh (reverse ls) []) ≡ keep_last ls
unfolding fresh keep_last
fresh-keep_last [] = refl
fresh-keep_last (l ∷ ls) =
    rw (reverse-cons l ls, fresh-append (reverse ls) l [], reverse-append-one_if_new)
      (ground
        (arith, fresh-keep_last ls, seen_key-reverse (layer_key l) ls, seen_key-nil (layer_key l)))

pub deduplicate_layers-keep_last : (ls : List Layer) → deduplicate_layers ls ≡ keep_last ls
unfolding deduplicate_layers
deduplicate_layers-keep_last ls = rw (collect-fresh (reverse ls) [] []) (fresh-keep_last ls)

-- No two layers have one key.
abbrev pub HasDistinctKeys : List Layer → Type 0
HasDistinctKeys [] = Unit
HasDistinctKeys (l ∷ ls) = (seen_key (layer_key l) (keys ls) ≡ false) × HasDistinctKeys ls

pub seen_key-keep_last :
    (k : Bytes) (ls : List Layer) → seen_key k (keys (keep_last ls)) ≡ seen_key k (keys ls)
unfolding keep_last
seen_key-keep_last k [] = refl
seen_key-keep_last k (l ∷ ls) = ground (
  arith,
  seen_key-keep_last k ls,
  seen_key-cons k (layer_key l) (keys ls),
  seen_key-cons k (layer_key l) (keys (keep_last ls)),
  equal_iff (layer_key l) k,
)

keep_last-HasDistinctKeys : (ls : List Layer) → HasDistinctKeys (keep_last ls)
unfolding keep_last
keep_last-HasDistinctKeys [] = tt
keep_last-HasDistinctKeys (l ∷ ls) =
    ground (arith, keep_last-HasDistinctKeys ls, seen_key-keep_last (layer_key l) ls)

pub keep_last_fixed : (ls : List Layer) → HasDistinctKeys ls → keep_last ls ≡ ls
unfolding keep_last
keep_last_fixed [] h = refl
keep_last_fixed (l ∷ ls) (n, h) = ground (arith, keep_last_fixed ls h)

-- Deduplication returns exactly the layers that no later layer repeats, in their order. After it no
-- two layers have one key, a key is there exactly if it was there before, and deduplicating once more changes nothing.
pub deduplicate_layers_distinct :
    (ls : List Layer)
    → HasDistinctKeys (deduplicate_layers ls)
      × ((k : Bytes) → seen_key k (keys (deduplicate_layers ls)) ≡ seen_key k (keys ls))
      × (deduplicate_layers (deduplicate_layers ls) ≡ deduplicate_layers ls)
      × (deduplicate_layers ls ≡ keep_last ls)
deduplicate_layers_distinct ls = rw deduplicate_layers-keep_last (
  keep_last-HasDistinctKeys ls,
  λ k. seen_key-keep_last k ls,
  deduplicate_layers-keep_last _ ∙ keep_last_fixed _ (keep_last-HasDistinctKeys ls),
  refl,
)
