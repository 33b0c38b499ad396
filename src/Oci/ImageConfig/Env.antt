-- ===== src/Oci/ImageConfig/Env.antt =====
-- Merged environments: the last entry of a key wins, and keys stay distinct.
use xmorph.Base.{Option, none, some, List, [], ◌∷◌, if◌then◌else◌, arith, ◌≡◌, refl, ◌∙◌}
use xmorph.Base.Bytes.{Bytes, equal, equal_iff}
use xmorph.Oci.ImageConfig.{env_key, put_env, merge_env, or_base}

-- What a process finds under a key.
unfoldable pub find_env : Bytes → List Bytes → Option Bytes
find_env key [] = none
find_env key (x ∷ env) = if equal (env_key x) key then some x else find_env key env

-- The last entry of a key.
unfoldable pub find_last_env : Bytes → List Bytes → Option Bytes
find_last_env key [] = none
find_last_env key (x ∷ env) = elim (find_last_env key env) [
  | some y ↦ some y
  | none ↦ if equal (env_key x) key then some x else none
]

find_env-put_env :
    (key e : Bytes) (env : List Bytes)
    → find_env key (put_env e env) ≡ (if equal (env_key e) key then some e else find_env key env)
unfolding find_env put_env
find_env-put_env key e [] = refl
find_env-put_env key e (x ∷ env) = ground (
  arith,
  find_env-put_env key e env,
  equal_iff (env_key x) (env_key e),
  equal_iff (env_key e) key,
  equal_iff (env_key x) key,
)

pub find_env-merge_env :
    (key : Bytes) (base overlay : List Bytes)
    → find_env key (merge_env base overlay)
      ≡ or_base (find_last_env key overlay) (find_env key base)
unfolding merge_env find_last_env
find_env-merge_env key base [] = refl
find_env-merge_env key base (e ∷ overlay) =
    find_env-merge_env key (put_env e base) overlay ∙ ground (arith, find_env-put_env key e base)

abbrev pub HasDistinctEnv : List Bytes → Type 0
HasDistinctEnv [] = Unit
HasDistinctEnv (x ∷ env) = (find_env (env_key x) env ≡ none) × HasDistinctEnv env

put_env-HasDistinctEnv :
    (e : Bytes) (env : List Bytes) → HasDistinctEnv env → HasDistinctEnv (put_env e env)
unfolding put_env
put_env-HasDistinctEnv e [] h = (unfold find_env in refl, tt)
put_env-HasDistinctEnv e (x ∷ env) (n, h) = ground (
  arith,
  put_env-HasDistinctEnv e env h,
  find_env-put_env (env_key x) e env,
  equal_iff (env_key x) (env_key e),
  equal_iff (env_key e) (env_key x),
)

merge_env-distinct :
    (base overlay : List Bytes) → HasDistinctEnv base → HasDistinctEnv (merge_env base overlay)
unfolding merge_env
merge_env-distinct base [] h = h
merge_env-distinct base (e ∷ overlay) h =
    merge_env-distinct (put_env e base) overlay (put_env-HasDistinctEnv e base h)

-- If no key stands twice in an environment, then none does after an overlay, whatever that is, is
-- merged into it; a key then has the last entry that the overlay gives it, and if the overlay gives
-- it none the entry that it had.
pub merge_env-HasDistinctEnv :
    (base overlay : List Bytes)
    → HasDistinctEnv base
    → HasDistinctEnv (merge_env base overlay)
      × ((key : Bytes)
          → find_env key (merge_env base overlay)
            ≡ or_base (find_last_env key overlay) (find_env key base))
merge_env-HasDistinctEnv base overlay h =
    (merge_env-distinct base overlay h, λ key. find_env-merge_env key base overlay)
