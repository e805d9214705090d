-- ===== src/Prelude/Classes.antt =====
-- Python's `==` on keys: one operator for numbers, texts, optional values and pairs.
use Prim.Native.Nat.{ℕ, compare, Ordering}
use Prim.Native.String.{String}
use mathlib.Core.Path.{◌≡◌, refl}
use mathlib.Core.Logic.{◌↔◌}
use mathlib.Core.Bool.{Bool, true, false, ◌&&◌}
use mathlib.Core.Option.{Option, none, some}
use native.Mathlib.Omega.{arith}
use text.Mathlib.Text
use text.Mathlib.TextEquality

-- Types whose equality Python decides.
pub record Eq {ℓ} (K : Type ℓ) : Type ℓ where
  pub same : K → K → Bool
  pub beq_iff : (j k : K) → (same j k ≡ true) ↔ (j ≡ k)

module _ {ℓ} {A : Type ℓ} ⦃e : Eq A⦄ where
  infix 50 ◌==◌
  abbrev pub ◌==◌ : A → A → Bool
  ◌==◌ = e.same

  abbrev pub option_same : Option A → Option A → Bool
  option_same none none = true
  option_same none (some b) = false
  option_same (some a) none = false
  option_same (some a) (some b) = a == b

  pub option_same_iff : (a b : Option A) → (option_same a b ≡ true) ↔ (a ≡ b)
  option_same_iff none none = (λ _. refl, λ _. refl)
  option_same_iff none (some b) = (λ h. cc, λ h. cc)
  option_same_iff (some a) none = (λ h. cc, λ h. cc)
  option_same_iff (some a) (some b) = ground (arith, e.beq_iff a b)

  instance abbrev pub option_eq : Eq (Option A)
  option_eq = record { same = option_same; beq_iff = option_same_iff }

module _ {ℓ κ} {A : Type ℓ} {B : Type κ} ⦃e : Eq A⦄ ⦃f : Eq B⦄ where
  abbrev pub pair_same : A × B → A × B → Bool
  pair_same (a, b) (c, d) = a == c && b == d

  pub pair_beq_iff : (p q : A × B) → (pair_same p q ≡ true) ↔ (p ≡ q)
  pair_beq_iff (a, b) (c, d) = ground (arith, e.beq_iff a c, f.beq_iff b d)

  instance abbrev pub pair_eq : Eq (A × B)
  pair_eq = record { same = pair_same; beq_iff = pair_beq_iff }

abbrev pub nat_same : ℕ → ℕ → Bool
nat_same a b = elim (compare a b) [ Ordering.eq ↦ true | _ ↦ false ]

pub nat_same_iff : (a b : ℕ) → (nat_same a b ≡ true) ↔ (a ≡ b)
nat_same_iff a b = ground arith

instance abbrev pub nat_eq : Eq ℕ
nat_eq = record { same = nat_same; beq_iff = nat_same_iff }

instance abbrev pub string_eq : Eq String
string_eq = record { same = Text.◌==◌; beq_iff = TextEquality.eq_iff }
