-- ===== src/Service/Payload/Consumed.antt =====
-- `traverse_keys` takes the keys off the list that it is given.
use advisor_backend.Common.{
  String, ◌≡◌, refl, ap, subst, Bool, true, false, List, [], ◌∷◌, ◌++◌, Result, ok, err, ◌>>=◌,
  >>=-eq-ok, ok-injective,
}
use advisor_backend.Common.Dict.{Dict}
use advisor_backend.Json.{JsonValue, null, get_or, truthy}
use advisor_backend.Service.Payload.{traverse_keys, Entry, read_data}

-- `rest` is `keys` without one or more of its first keys.
pub record IsProperEnd (keys rest : List String) : Type 0 where
  pub first : String
  pub used : List String
  pub splits : keys ≡ first ∷ (used ++ rest)

IsProperEnd-cons :
    (key : String) (keys rest : List String) → IsProperEnd keys rest → IsProperEnd (key ∷ keys) rest
IsProperEnd-cons key keys rest e = record {
  first = key;
  used = e.first ∷ e.used;
  splits = ap (λ ks. key ∷ ks) e.splits;
}

-- What `traverse_keys` leaves, and that it gives the default where keys are left.
abbrev Leaves : List String → JsonValue → Result (JsonValue × List String) → Type 0
Leaves keys default (ok (v, [])) = IsProperEnd keys []
Leaves keys default (ok (v, k ∷ ks)) = IsProperEnd keys (k ∷ ks) × (v ≡ default)
Leaves keys default (err e) = Unit

Leaves-cons :
    (key : String) (keys : List String) (default : JsonValue) (r : Result (JsonValue × List String))
    → Leaves keys default r
    → Leaves (key ∷ keys) default r
Leaves-cons key keys default (ok (v, [])) h = IsProperEnd-cons key keys [] h
Leaves-cons key keys default (ok (v, k ∷ ks)) h = (IsProperEnd-cons key keys (k ∷ ks) h.0, h.1)
Leaves-cons key keys default (err e) h = tt

one_key : (key : String) (keys : List String) → IsProperEnd (key ∷ keys) keys
one_key key keys = record { first = key; used = []; splits = refl }

traverse_keys-Leaves :
    (d : JsonValue) (keys : List String) (default : JsonValue)
    → Leaves keys default (traverse_keys d keys default)
unfolding traverse_keys
traverse_keys-Leaves d [] default = tt
traverse_keys-Leaves d (key ∷ []) default = go (get_or d key default)
  where
    go : (r : Result JsonValue) → Leaves (key ∷ []) default (r >>= λ item. ok (item, []))
    go (ok item) = one_key key []
    go (err e) = tt
traverse_keys-Leaves d (key ∷ key' ∷ keys) default =
    go (get_or d key default) (λ item. traverse_keys-Leaves item (key' ∷ keys) default)
  where
    inner :
        (item : JsonValue) (b : Bool)
        → Leaves (key' ∷ keys) default (traverse_keys item (key' ∷ keys) default)
        → Leaves (key ∷ key' ∷ keys) default (elim b [
          | false ↦ ok (default, key' ∷ keys)
          | true ↦ traverse_keys item (key' ∷ keys) default
        ])
    inner item false h = (one_key key (key' ∷ keys), refl)
    inner item true h = Leaves-cons key (key' ∷ keys) default _ h

    go :
        (r : Result JsonValue)
        → ((item : JsonValue)
            → Leaves (key' ∷ keys) default (traverse_keys item (key' ∷ keys) default))
        → Leaves (key ∷ key' ∷ keys) default (
            r >>= λ item. elim (truthy item) [
              | false ↦ ok (default, key' ∷ keys)
              | true ↦ traverse_keys item (key' ∷ keys) default
            ])
    go (ok item) ih = inner item (truthy item) (ih item)
    go (err e) ih = tt

left_IsProperEnd :
    (keys : List String) (default : JsonValue) (r : Result (JsonValue × List String))
    {v : JsonValue} {rest : List String}
    → Leaves keys default r
    → r ≡ ok (v, rest)
    → IsProperEnd keys rest
left_IsProperEnd keys default (ok (v, [])) h e =
    subst (IsProperEnd keys) (ap (λ (t : JsonValue × List String). t.1) (ok-injective e)) h
left_IsProperEnd keys default (ok (v, k ∷ ks)) h e =
    subst (IsProperEnd keys) (ap (λ (t : JsonValue × List String). t.1) (ok-injective e)) h.0
left_IsProperEnd keys default (err x) h e = cc

-- Each key of `paths` has its entry, and the entry's path is a proper end of the key's.
pub data AreConsumed : Dict String (List String) → List Entry → Type 0 where
  all_read : AreConsumed [] []
  read :
      {key : String} {path : List String} {paths : Dict String (List String)} {entry : Entry}
      {entries : List Entry}
      → entry.key ≡ key
      → IsProperEnd path entry.path
      → AreConsumed paths entries
      → AreConsumed ((key, path) ∷ paths) (entry ∷ entries)

-- Where the look-up of the required keys returns, it has an entry for each key in their order, and it
-- has taken at least the first key off each list of keys.
pub read_data-AreConsumed :
    (engine_results : JsonValue) (paths : Dict String (List String)) (entries : List Entry)
    → read_data engine_results paths ≡ ok entries
    → AreConsumed paths entries
unfolding read_data
read_data-AreConsumed engine_results [] entries h = subst (AreConsumed []) (ok-injective h) all_read
read_data-AreConsumed engine_results ((key, path) ∷ paths) entries h =
    let (found, looked_up, h₁) = >>=-eq-ok (traverse_keys engine_results path null) _ h in
    let (rest, others, h₂) = >>=-eq-ok (read_data engine_results paths) _ h₁ in
    subst (AreConsumed ((key, path) ∷ paths)) (ok-injective h₂) (
      read refl
        (left_IsProperEnd path null _ (traverse_keys-Leaves engine_results path null) looked_up)
        (read_data-AreConsumed engine_results paths rest others))
