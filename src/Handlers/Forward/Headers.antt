-- ===== src/Handlers/Forward/Headers.antt =====
-- Which fields of a header are sent on.
use sni_shaper_linux.Prelude.{
  ◌≡◌, refl, sym, ap, ◌∙◌, subst, ◌↔◌, inl, inr, Bool, true, false, not, List, [], ◌∷◌, arith,
  select, select→, →select, any, any_iff, IsIn, Bool-cases, if◌then◌else◌, map, map-IsIn, IsIn-map,
  ◌≢◌, ◌&&◌,
}
use sni_shaper_linux.Text.{Bytes, codes, is_empty, to_lower, split, str_eq_iff}
use sni_shaper_linux.Handlers.Forward.{
  Header, trim_string, names_equal, first_value, delete_name, delete_all, hop_by_hop_headers,
  connection_names, remove_hop_by_hop_headers,
}

abbrev pub Field : Type 0
Field = Bytes × List Bytes

-- The field has one of the names, whatever its case.
abbrev pub is_named : List Bytes → Field → Bool
is_named names field = any (λ name. names_equal field.0 name) names

delete_all→ :
    (names : List Bytes) (h : Header) (field : Field)
    → IsIn field (delete_all names h)
    → IsIn field h × (is_named names field ≡ false)
unfolding delete_all delete_name
delete_all→ [] h field i = (i, refl)
delete_all→ (name ∷ names) h field i =
    let (j, others) = delete_all→ names (delete_name name h) field i in
    let (k, this) = select→ (λ f. not (names_equal f.0 name)) h field j in (k, ground arith)

→delete_all :
    (names : List Bytes) (h : Header) (field : Field)
    → IsIn field h
    → is_named names field ≡ false
    → IsIn field (delete_all names h)
unfolding delete_all delete_name
→delete_all [] h field i e = i
→delete_all (name ∷ names) h field i e =
    →delete_all names (delete_name name h) field
      (→select (λ f. not (names_equal f.0 name)) h field i (ground arith)) (ground arith)

-- The names that the header itself lists.
abbrev pub listed_names : Header → List Bytes
listed_names h =
    if is_empty (first_value h (codes "Connection"))
    then []
    else connection_names (first_value h (codes "Connection"))

-- The fields that are for one hop alone, by RFC 7230 and by custom, but for `Connection` and `Upgrade`,
-- which a WebSocket needs.
abbrev pub one_hop : List Bytes
one_hop =
    codes "proxy-connection"
    ∷ codes "keep-alive"
    ∷ codes "proxy-authenticate"
    ∷ codes "proxy-authorization"
    ∷ codes "te"
    ∷ codes "trailer"
    ∷ codes "transfer-encoding"
    ∷ []

abbrev pub IsOneHop : Field → Type 0
IsOneHop field = IsIn (to_lower field.0) one_hop

-- One of the parts between the commas of the header's field `Connection`, without the space around it, is
-- the name of the field, whatever its case; but neither the empty name nor `upgrade`.
abbrev pub IsListed : Header → Field → Type 0
IsListed h field =
    (part : Bytes) × (IsIn part (split (first_value h (codes "Connection")) b',')
      × ((to_lower field.0 ≡ to_lower (trim_string part))
          × ((is_empty (trim_string part) ≡ false)
              × (to_lower (trim_string part) ≢ codes "upgrade"))))

named→ :
    (names : List Bytes) (field : Field)
    → is_named names field ≡ true
    → (name : Bytes) × (IsIn name names × (to_lower field.0 ≡ to_lower name))
named→ names field e =
    let (name, (i, same)) = (any_iff (λ n. names_equal field.0 n) names).0 e in
    (name, (i, (str_eq_iff (to_lower field.0) (to_lower name)).0 same))

→named :
    (names : List Bytes) (field : Field) (name : Bytes)
    → IsIn name names
    → to_lower field.0 ≡ to_lower name
    → is_named names field ≡ true
→named names field name i e =
    (any_iff (λ n. names_equal field.0 n) names).1
      (name, (i, (str_eq_iff (to_lower field.0) (to_lower name)).1 e))

unnamed :
    (names : List Bytes) (field : Field)
    → ¬ (is_named names field ≡ true)
    → is_named names field ≡ false
unnamed names field h = elim (Bool-cases (is_named names field)) [
  | inl e ↦ absurd (h e)
  | inr e ↦ e
]

lowered : map to_lower hop_by_hop_headers ≡ one_hop
unfolding to_lower
lowered = refl

hop→ : (field : Field) → is_named hop_by_hop_headers field ≡ true → IsOneHop field
hop→ field e =
    let (name, (i, same)) = named→ hop_by_hop_headers field e in
    subst (IsIn (to_lower field.0)) lowered
      (map-IsIn to_lower (to_lower field.0) name hop_by_hop_headers i same)

→hop : (field : Field) → IsOneHop field → is_named hop_by_hop_headers field ≡ true
→hop field i =
    let (name, (j, same)) =
      IsIn-map to_lower (to_lower field.0) hop_by_hop_headers
        (subst (IsIn (to_lower field.0)) (sym lowered) i) in
    →named hop_by_hop_headers field name j same

counts : Bytes → Bool
counts name = not (is_empty name) && not (names_equal name (codes "Upgrade"))

upgrade_lowered : to_lower (codes "Upgrade") ≡ codes "upgrade"
unfolding to_lower
upgrade_lowered = refl

counts→ :
    (name : Bytes)
    → counts name ≡ true
    → (is_empty name ≡ false) × (to_lower name ≢ codes "upgrade")
unfolding counts
counts→ name h = (
  ground arith,
  λ e.
      let same : names_equal name (codes "Upgrade") ≡ true =
        (str_eq_iff (to_lower name) (to_lower (codes "Upgrade"))).1 (e ∙ sym upgrade_lowered) in
      ground arith,
)

→counts :
    (name : Bytes) → is_empty name ≡ false → to_lower name ≢ codes "upgrade" → counts name ≡ true
unfolding counts
→counts name filled other = elim (Bool-cases (names_equal name (codes "Upgrade"))) [
  | inl same ↦
      absurd
        (other ((str_eq_iff (to_lower name) (to_lower (codes "Upgrade"))).0 same ∙ upgrade_lowered))
  | inr differs ↦ rw (filled, differs) refl
]

none_listed :
    (value : Bytes)
    → is_empty value ≡ true
    → [] ≡ select counts (map trim_string (split value b','))
unfolding is_empty split counts
none_listed [] e = refl
none_listed (c ∷ s) e = ground arith

listed_lem :
    (h : Header)
    → listed_names h
      ≡ select counts (map trim_string (split (first_value h (codes "Connection")) b','))
unfolding connection_names counts
listed_lem h = elim (Bool-cases (is_empty (first_value h (codes "Connection")))) [
  | inr filled ↦ rw filled refl
  | inl nothing ↦ rw nothing (none_listed (first_value h (codes "Connection")) nothing)
]

listed→ : (h : Header) (field : Field) → is_named (listed_names h) field ≡ true → IsListed h field
listed→ h field e =
    let value = first_value h (codes "Connection") in
    let (name, (i, same)) = named→ (listed_names h) field e in
    let parts = map trim_string (split value b',') in
    let (j, passes) = select→ counts parts name (subst (IsIn name) (listed_lem h) i) in
    let (part, (k, trimmed)) = IsIn-map trim_string name (split value b',') j in
    let (filled, other) = counts→ (trim_string part) (ap counts (sym trimmed) ∙ passes) in
    (part, (k, (same ∙ ap to_lower trimmed, (filled, other))))

→listed : (h : Header) (field : Field) → IsListed h field → is_named (listed_names h) field ≡ true
→listed h field (part, (i, (same, (filled, other)))) =
    let value = first_value h (codes "Connection") in
    let name = trim_string part in
    let parts = map trim_string (split value b',') in
    let j = map-IsIn trim_string name part (split value b',') i refl in
    →named (listed_names h) field name
      (subst (IsIn name) (sym (listed_lem h))
        (→select counts parts name j (→counts name filled other)))
      same

-- A field is sent on exactly if it is in the header and is none of those that are for one hop alone, the
-- seven that have these names, whatever their case, nor one that the header's field `Connection` lists,
-- where `Upgrade` does not count.
pub remove_hop_by_hop_headers_iff :
    (h : Header) (field : Field)
    → IsIn field (remove_hop_by_hop_headers h)
      ↔ (IsIn field h × ((¬ IsListed h field) × (¬ IsOneHop field)))
unfolding remove_hop_by_hop_headers
remove_hop_by_hop_headers_iff h field = (
  λ i.
      let (j, hop) = delete_all→ hop_by_hop_headers (delete_all (listed_names h) h) field i in
      let (k, listed) = delete_all→ (listed_names h) h field j in
      (k, (λ l. ground (arith, →listed h field l, listed), λ o. ground (arith, →hop field o, hop))),
  λ (i, (not_listed, not_hop)).
      →delete_all hop_by_hop_headers (delete_all (listed_names h) h) field
        (→delete_all (listed_names h) h field i
          (unnamed (listed_names h) field (λ e. not_listed (listed→ h field e))))
        (unnamed hop_by_hop_headers field (λ e. not_hop (hop→ field e))),
)
