-- ===== src/Reader/Reads/Literals.antt =====
-- src/reader/Reader.cpp: every map that is read has a value for each key and no key twice, and
-- every set no element twice.
use proto_clojure.Base.{◌%◌, ◌≡◌, false, Option, none, List, [], ◌∷◌, arith, if_split, All}
use proto_clojure.Reader.Forms.{
  Form, nil_form, boolean, long, large, double, text, named, list, vector, hash_map, hash_set,
  pattern_form, Forms, end, item, Environment,
}
use proto_clojure.Reader.Parts.{repeated, occurs, keys_of, elements_of, count}

module _ (env : Environment) where
  -- No two of the forms are equal as keys.
  abbrev pub AreDistinct : List Form → Type 0
  AreDistinct [] = Unit
  AreDistinct (k ∷ ks) = All (λ j. env.key_equals k j ≡ false) ks × AreDistinct ks

  abbrev pub IsMapItems : Forms → Type 0
  IsMapItems fs = (count fs % 2 ≡ 0) × AreDistinct (keys_of fs)

  abbrev pub IsSetItems : Forms → Type 0
  IsSetItems fs = AreDistinct (elements_of fs)

  unfoldable mutual
    pub IsFormed : Form → Type 0
    IsFormed (list fs) = AreFormed fs
    IsFormed (vector fs) = AreFormed fs
    IsFormed (hash_map fs) = IsMapItems fs × AreFormed fs
    IsFormed (hash_set fs) = IsSetItems fs × AreFormed fs
    IsFormed nil_form = Unit
    IsFormed (boolean b) = Unit
    IsFormed (long n) = Unit
    IsFormed (large s) = Unit
    IsFormed (double d) = Unit
    IsFormed (text s) = Unit
    IsFormed (named s) = Unit
    IsFormed (pattern_form s) = Unit

    pub AreFormed : Forms → Type 0
    AreFormed end = Unit
    AreFormed (item f fs) = IsFormed f × AreFormed fs

  -- The orders in which maps and sets are taken keep what is in them.
  pub record KeepsLiterals : Type 0 where
    pub maps :
        (fs : Forms)
        → IsMapItems fs × AreFormed fs
        → IsMapItems (env.map_order fs) × AreFormed (env.map_order fs)
    pub sets :
        (fs : Forms)
        → IsSetItems fs × AreFormed fs
        → IsSetItems (env.set_order fs) × AreFormed (env.set_order fs)

  -- The test for a repeated key finds every pair.
  pub repeated-AreDistinct :
      (seen ks : List Form)
      → repeated env seen ks ≡ none
      → AreDistinct ks × All (λ k. occurs env seen k ≡ false) ks
  unfolding repeated
  repeated-AreDistinct seen [] e = (tt, tt)
  repeated-AreDistinct seen (k ∷ ks) e =
      if_split
        (λ (r : Option Form).
          r ≡ none → AreDistinct (k ∷ ks) × All (λ j. occurs env seen j ≡ false) (k ∷ ks))
        (occurs env seen k) (λ o h. cc)
        (λ o h.
          let (d, all) = repeated-AreDistinct (k ∷ seen) ks h in
          ((go_left ks all, d), (o, go_right ks all)))
        e
    where
      go_left :
          (js : List Form)
          → All (λ j. occurs env (k ∷ seen) j ≡ false) js
          → All (λ j. env.key_equals k j ≡ false) js
      go_left [] all = tt
      go_left (j ∷ js) all = (ground (arith, all.0), go_left js all.1)

      go_right :
          (js : List Form)
          → All (λ j. occurs env (k ∷ seen) j ≡ false) js
          → All (λ j. occurs env seen j ≡ false) js
      go_right [] all = tt
      go_right (j ∷ js) all = (ground (arith, all.0), go_right js all.1)
