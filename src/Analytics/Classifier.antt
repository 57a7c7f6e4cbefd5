-- ===== src/Analytics/Classifier.antt =====
-- src/meshchat/analytics/packet_classifier.py.
use orc_mesh.Prelude.{
  ℕ, ◌≡◌, ◌≢◌, refl, sym, ==_iff, Bool, true, false, Option, none, some, [], ◌∷◌, ◌++◌, String,
  arith, ◌==◌, if◌then◌else◌, Bool-cases, inl, inr,
}
use orc_mesh.Prelude.Int.{ℤ, pos, negsuc}
use orc_mesh.Prelude.Text.{Text, codes, show_ℤ}
use orc_mesh.Prelude.Dict.{Dict, lookup, nat_eq}

abbrev pub portnum_text : ℕ
portnum_text = 1

abbrev pub portnum_position : ℕ
portnum_position = 3

abbrev pub portnum_telemetry : ℕ
portnum_telemetry = 67

-- `portnum == PORTNUM_…`
abbrev pub is_port : ℕ → Option ℤ → Bool
is_port k none = false
is_port k (some (pos n)) = n == k
is_port k (some (negsuc n)) = false

abbrev pub portnum_labels : Dict ℕ String
portnum_labels =
    (0, "Unknown Port")
    ∷ (1, "Text")
    ∷ (3, "Position")
    ∷ (4, "Node Info")
    ∷ (5, "Routing")
    ∷ (67, "Telemetry")
    ∷ (70, "Traceroute")
    ∷ (71, "Neighbor Info")
    ∷ (73, "Map Report")
    ∷ (256, "Private App")
    ∷ []

-- the table inside `packet_category`
abbrev pub category_mapping : Dict ℕ String
category_mapping =
    (1, "Text")
    ∷ (3, "Position")
    ∷ (4, "Node Info")
    ∷ (5, "Routing")
    ∷ (67, "Telemetry")
    ∷ (70, "Traceroute")
    ∷ (71, "Neighbor Info")
    ∷ (73, "Map Report")
    ∷ (256, "Private App")
    ∷ []

abbrev pub lookup_ℤ : ℤ → Dict ℕ String → Option String
lookup_ℤ (pos n) d = lookup n d
lookup_ℤ (negsuc n) d = none

abbrev other_known : ℤ → Text
other_known portnum = codes "Other Known (" ++ (show_ℤ portnum ++ codes ")")

abbrev label_or : Option String → ℤ → Text
label_or none portnum = other_known portnum
label_or (some label) portnum = codes label

unfoldable pub classify_portnum : Option ℤ → Text
classify_portnum none = codes "Unknown Port"
classify_portnum (some portnum) = label_or (lookup_ℤ portnum portnum_labels) portnum

abbrev category_or : Option String → ℤ → Text
category_or none portnum =
    if is_port 0 (some portnum) then codes "Unknown Port" else codes "Other Known"
category_or (some label) portnum = codes label

abbrev truthy : Option Bool → Bool
truthy none = false
truthy (some b) = b

uncategorized : Option ℤ → Text
uncategorized none = codes "Unknown Port"
uncategorized (some portnum) = category_or (lookup_ℤ portnum category_mapping) portnum

unfoldable pub packet_category : Option ℤ → Option Bool → Text
unfolding uncategorized
packet_category portnum pki_encrypted =
    if truthy pki_encrypted then codes "Encrypted/Undecoded" else uncategorized portnum

-- the category that goes with a label of the table
abbrev pub category_of : Option String → Text
category_of none = codes "Other Known"
category_of (some label) = codes label

same_table :
    (n : ℕ)
    → category_or (lookup n category_mapping) (pos n) ≡ category_of (lookup n portnum_labels)
same_table n = elim (Bool-cases (0 == n)) [
  | inl zeroth ↦ unfold lookup in rw (sym ((==_iff 0 n).0 zeroth))
  | inr other ↦
      let skips : lookup n portnum_labels ≡ lookup n category_mapping = unfold lookup in rw other in
      let nonzero : (n == 0) ≡ false = ground arith in
      rw skips (by_label (lookup n category_mapping) nonzero)
]
  where
    by_label : (o : Option String) → (n == 0) ≡ false → category_or o (pos n) ≡ category_of o
    by_label none h = rw h
    by_label (some label) h = refl

-- The two tables of port numbers agree: a packet that is not marked as encrypted has the category of
-- its label where the table of labels has its port number, and else "Other Known"; with no port number
-- it is "Unknown Port".
pub packet_category_lem :
    (portnum : Option ℤ) (pki_encrypted : Option Bool)
    → pki_encrypted ≢ some true
    → packet_category portnum pki_encrypted ≡ elim portnum [
      | none ↦ codes "Unknown Port"
      | some n ↦ category_of (lookup_ℤ n portnum_labels)
    ]
unfolding packet_category
packet_category_lem portnum (some true) h = absurd (h refl)
packet_category_lem none none h = refl
packet_category_lem none (some false) h = refl
packet_category_lem (some (pos n)) none h = same_table n
packet_category_lem (some (pos n)) (some false) h = same_table n
packet_category_lem (some (negsuc n)) none h = refl
packet_category_lem (some (negsuc n)) (some false) h = refl
