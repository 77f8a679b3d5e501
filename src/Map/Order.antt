-- ===== src/Map/Order.antt =====
-- `Ord`: a decidable strict order, with the two instances that the store's maps use.
use git_storage.Prelude.{◌≡◌, ◌↔◌, Bool, true, false, ◌&&◌, ◌||◌, arith}
use git_storage.Prelude.Text.{Text, eqb, lessb, eqb_iff, lessb_irrefl, lessb_trans, lessb_total}

pub record Ord {ℓ} (K : Type ℓ) : Type ℓ where
  pub eqb : K → K → Bool
  pub ltb : K → K → Bool
  pub eqb_iff : (a b : K) → (eqb a b ≡ true) ↔ (a ≡ b)
  pub ltb_irrefl : (a : K) → ltb a a ≡ false
  pub ltb_trans : (a b c : K) → ltb a b ≡ true → ltb b c ≡ true → ltb a c ≡ true
  pub ltb_total : (a b : K) → ltb a b ≡ false → eqb a b ≡ false → ltb b a ≡ true

instance abbrev pub text_ord : Ord Text
text_ord = record {
  eqb = eqb;
  ltb = lessb;
  eqb_iff = eqb_iff;
  ltb_irrefl = lessb_irrefl;
  ltb_trans = lessb_trans;
  ltb_total = lessb_total;
}

abbrev pub pair_eqb : Text × Text → Text × Text → Bool
pair_eqb (a, b) (c, d) = eqb a c && eqb b d

abbrev pub pair_ltb : Text × Text → Text × Text → Bool
pair_ltb (a, b) (c, d) = lessb a c || (eqb a c && lessb b d)

pub pair_eqb_iff : (p q : Text × Text) → (pair_eqb p q ≡ true) ↔ (p ≡ q)
pair_eqb_iff (a, b) (c, d) =
    (λ h. ground (arith, eqb_iff a c, eqb_iff b d), λ h. ground (arith, eqb_iff a c, eqb_iff b d))

pub pair_ltb_irrefl : (p : Text × Text) → pair_ltb p p ≡ false
pair_ltb_irrefl (a, b) = ground (arith, lessb_irrefl a, lessb_irrefl b)

pub pair_ltb_trans :
    (p q r : Text × Text) → pair_ltb p q ≡ true → pair_ltb q r ≡ true → pair_ltb p r ≡ true
pair_ltb_trans (a, b) (c, d) (e, f) h k =
    ground (arith, lessb_trans a c e, lessb_trans b d f, eqb_iff a c, eqb_iff c e, eqb_iff a e)

pub pair_ltb_total :
    (p q : Text × Text) → pair_ltb p q ≡ false → pair_eqb p q ≡ false → pair_ltb q p ≡ true
pair_ltb_total (a, b) (c, d) h k =
    ground (arith, lessb_total a c, lessb_total b d, eqb_iff a c, eqb_iff c a)

instance abbrev pub pair_ord : Ord (Text × Text)
pair_ord = record {
  eqb = pair_eqb;
  ltb = pair_ltb;
  eqb_iff = pair_eqb_iff;
  ltb_irrefl = pair_ltb_irrefl;
  ltb_trans = pair_ltb_trans;
  ltb_total = pair_ltb_total;
}
