-- ===== src/Permissions/Permission/Parsing.antt =====
-- What `RBACPermission` accepts.
use Prim.Native.Char.{Char, code}
use Prim.Native.String.{◌++◌}
use text.Mathlib.TextLemmas.{nil-append, cons-append}
use text.Mathlib.TextEquality.{Char-path}
use advisor_backend.Common.{
  suc, String, ◌≡◌, refl, sym, ap, ◌∙◌, ◌↔◌, Bool, true, false, not, arith, List, [], ◌∷◌, ◌==◌,
  nat_eq, if◌then◌else◌, ok, err, length, All, ok-injective, subst, value_error,
}
use advisor_backend.Json.{str}
use advisor_backend.Permissions.Permission.{
  RbacPermission, count_colons, push, split_colons, unpack, parse_permission,
}

abbrev pub colon : Char
colon = Char.char 58 tt

-- ':'.join(ws)
abbrev join_colons : List String → String
join_colons [] = ""
join_colons (w ∷ []) = w
join_colons (w ∷ v ∷ ws) = w ++ String.◌∷◌ colon (join_colons (v ∷ ws))

abbrev pub HasNoColon : String → Type 0
HasNoColon s = count_colons s ≡ 0

split-nonempty : (s : String) → (w : String) × (ws : List String) × (split_colons s ≡ w ∷ ws)
unfolding split_colons
split-nonempty String.[] = ("", [], refl)
split-nonempty (String.◌∷◌ c s) = go (code c == 58) (split_colons s)
  where
    go :
        (b : Bool) (ws : List String)
        → (v : String) × (vs : List String) × ((if b then "" ∷ ws else push c ws) ≡ v ∷ vs)
    go true ws = ("", ws, refl)
    go false [] = (String.◌∷◌ c "", [], refl)
    go false (w ∷ ws) = (String.◌∷◌ c w, ws, refl)

join-split : (s : String) → join_colons (split_colons s) ≡ s
unfolding split_colons
join-split String.[] = refl
join-split (String.◌∷◌ c s) =
    let (w, ws, e) = split-nonempty s in
    rw e (go (code c == 58) refl w ws (sym (ap join_colons e) ∙ join-split s))
  where
    go :
        (b : Bool)
        → (code c == 58) ≡ b
        → (w : String) (ws : List String) → join_colons (w ∷ ws) ≡ s
        → join_colons (if b then "" ∷ w ∷ ws else push c (w ∷ ws)) ≡ String.◌∷◌ c s
    go true is w ws joined =
        nil-append _
        ∙ ap (String.◌∷◌ colon) joined
        ∙ ap (λ d. String.◌∷◌ d s) (Char-path colon c (sym ((nat_eq.same_iff (code c) 58).0 is)))
    go false is w [] joined = ap (String.◌∷◌ c) joined
    go false is w (v ∷ ws) joined = cons-append c w _ ∙ ap (String.◌∷◌ c) joined

split-HasNoColon : (s : String) → All HasNoColon (split_colons s)
unfolding split_colons count_colons
split-HasNoColon String.[] = (refl, tt)
split-HasNoColon (String.◌∷◌ c s) = go (code c == 58) refl (split_colons s) (split-HasNoColon s)
  where
    go :
        (b : Bool)
        → (code c == 58) ≡ b
        → (ws : List String) → All HasNoColon ws
        → All HasNoColon (if b then "" ∷ ws else push c ws)
    go true is ws h = (refl, h)
    go false is [] h = (rw is refl, tt)
    go false is (w ∷ ws) h = (rw is h.0, h.1)

cons-HasNoColon :
    (c : Char) (a : String) → HasNoColon (String.◌∷◌ c a) → ((code c == 58) ≡ false) × HasNoColon a
unfolding count_colons
cons-HasNoColon c a h = ground arith

split-append :
    (a s : String) → HasNoColon a → split_colons (a ++ String.◌∷◌ colon s) ≡ a ∷ split_colons s
unfolding split_colons
split-append String.[] s h = rw nil-append refl
split-append (String.◌∷◌ c a) s h =
    let (other, h') = cons-HasNoColon c a h in rw cons-append (rw (other, split-append a s h') refl)

split-HasNoColon-self : (a : String) → HasNoColon a → split_colons a ≡ a ∷ []
unfolding split_colons
split-HasNoColon-self String.[] h = refl
split-HasNoColon-self (String.◌∷◌ c a) h =
    let (other, h') = cons-HasNoColon c a h in rw (other, split-HasNoColon-self a h') refl

length-push :
    (c : Char) (w : String) (ws : List String) → length (push c (w ∷ ws)) ≡ suc (length ws)
length-push c w ws = refl

length-split : (s : String) → length (split_colons s) ≡ suc (count_colons s)
unfolding split_colons count_colons
length-split String.[] = refl
length-split (String.◌∷◌ c s) =
    let (w, ws, e) = split-nonempty s in go (code c == 58) (split_colons s) w ws e (length-split s)
  where
    go :
        (b : Bool) (vs : List String) (w : String) (ws : List String)
        → vs ≡ w ∷ ws
        → length vs ≡ suc (count_colons s)
        → length (if b then "" ∷ vs else push c vs)
          ≡ suc (if b then suc (count_colons s) else count_colons s)
    go true vs w ws e h = ap suc h
    go false [] w ws e h = cc
    go false (v ∷ vs) w ws e h = h

pub record IsSplit (s : String) (p : RbacPermission) : Type 0 where
  pub string : p.string ≡ s
  pub joined : s ≡ p.app ++ String.◌∷◌ colon (p.resource ++ String.◌∷◌ colon p.method)
  pub app : HasNoColon p.app
  pub resource : HasNoColon p.resource
  pub method : HasNoColon p.method

parsed_IsSplit :
    (s : String) (p : RbacPermission) (b : Bool) (ws : List String)
    → All HasNoColon ws
    → s ≡ join_colons ws
    → (if not b then err value_error else unpack s ws) ≡ ok p
    → IsSplit s p
parsed_IsSplit s p true (a ∷ r ∷ m ∷ []) h joined e =
    subst (IsSplit s) (ok-injective e)
      (record { string = refl; joined = joined; app = h.0; resource = h.1.0; method = h.1.1.0 })
parsed_IsSplit s p true [] h joined e = cc
parsed_IsSplit s p true (a ∷ []) h joined e = cc
parsed_IsSplit s p true (a ∷ r ∷ []) h joined e = cc
parsed_IsSplit s p true (a ∷ r ∷ m ∷ x ∷ ws) h joined e = cc
parsed_IsSplit s p false ws h joined e = cc

split_three :
    (s : String) (p : RbacPermission)
    → IsSplit s p
    → split_colons s ≡ p.app ∷ p.resource ∷ p.method ∷ []
split_three s p h =
    ap split_colons h.joined
    ∙ split-append p.app _ h.app
    ∙ ap (λ ws. p.app ∷ ws)
        (split-append p.resource _ h.resource
          ∙ ap (λ ws. p.resource ∷ ws) (split-HasNoColon-self p.method h.method))

-- `RBACPermission(s)` succeeds exactly on the texts `app:resource:method` whose three parts have no
-- colon, and it gives these parts and the text itself.
pub parse-IsSplit :
    (s : String) (p : RbacPermission) → (parse_permission (str s) ≡ ok p) ↔ IsSplit s p
unfolding parse_permission
parse-IsSplit s p = (
  parsed_IsSplit s p (count_colons s == 2) (split_colons s) (split-HasNoColon s)
      (sym (join-split s)),
  λ h.
      let two : count_colons s ≡ 2 = omega (arith, length-split s, ap length (split_three s p h)) in
      rw (two, split_three s p h) (ap (λ t. ok (record p { string = t })) (sym h.string)),
)
