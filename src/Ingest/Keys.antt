-- ===== src/Ingest/Keys.antt =====
-- Equality of the keys that `_dedup_key` makes.
use orc_mesh.Prelude.{◌≡◌, ◌↔◌, refl, Bool, true, false, ◌&&◌, Option, none, some, arith, ◌==◌}
use orc_mesh.Prelude.Int.{ℤ, pos, negsuc}
use orc_mesh.Prelude.Text.{text_eq, text_eq_iff}
use orc_mesh.Prelude.Dict.{Eq}
use orc_mesh.Ingest.Normalize.{DedupKey, identified, fingerprint}

eq_ℤ : ℤ → ℤ → Bool
eq_ℤ (pos a) (pos b) = a == b
eq_ℤ (negsuc a) (negsuc b) = a == b
eq_ℤ _ _ = false

eq_port : Option ℤ → Option ℤ → Bool
unfolding eq_ℤ
eq_port none none = true
eq_port (some a) (some b) = eq_ℤ a b
eq_port _ _ = false

unfoldable pub eq_key : DedupKey → DedupKey → Bool
unfolding eq_port
eq_key (identified s i p c) (identified s' i' p' c') =
    s == s' && (i == i' && (eq_port p p' && c == c'))
eq_key (fingerprint a) (fingerprint b) = text_eq a b
eq_key _ _ = false

eq_ℤ_iff : (a b : ℤ) → (eq_ℤ a b ≡ true) ↔ (a ≡ b)
unfolding eq_ℤ
eq_ℤ_iff (pos a) (pos b) = (λ h. ground arith, λ h. ground arith)
eq_ℤ_iff (negsuc a) (negsuc b) = (λ h. ground arith, λ h. ground arith)
eq_ℤ_iff (pos a) (negsuc b) = (λ h. cc, λ h. cc)
eq_ℤ_iff (negsuc a) (pos b) = (λ h. cc, λ h. cc)

eq_port_iff : (a b : Option ℤ) → (eq_port a b ≡ true) ↔ (a ≡ b)
unfolding eq_port
eq_port_iff none none = (λ h. refl, λ h. refl)
eq_port_iff none (some b) = (λ h. cc, λ h. cc)
eq_port_iff (some a) none = (λ h. cc, λ h. cc)
eq_port_iff (some a) (some b) = (λ h. cc ((eq_ℤ_iff a b).0 h), λ h. (eq_ℤ_iff a b).1 (cc))

pub eq_key_iff : (a b : DedupKey) → (eq_key a b ≡ true) ↔ (a ≡ b)
unfolding eq_key
eq_key_iff (identified s i p c) (identified s' i' p' c') =
    (λ h. ground (arith, eq_port_iff p p'), λ h. ground (arith, eq_port_iff p p'))
eq_key_iff (identified s i p c) (fingerprint b) = (λ h. cc, λ h. cc)
eq_key_iff (fingerprint a) (identified s i p c) = (λ h. cc, λ h. cc)
eq_key_iff (fingerprint a) (fingerprint b) =
    (λ h. cc ((text_eq_iff a b).0 h), λ h. (text_eq_iff a b).1 (cc))

instance abbrev pub key_eq : Eq DedupKey
unfolding eq_key
key_eq = record { beq = eq_key; beq_iff = eq_key_iff }
