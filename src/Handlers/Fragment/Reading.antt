-- ===== src/Handlers/Fragment/Reading.antt =====
-- The record that is read, and its length field.
use sni_shaper_linux.Prelude.{
  ℕ, ◌+◌, ◌*◌, ◌<◌, ◌≡◌, refl, sym, ap, subst, Bool, true, false, Option, none, some, [], ◌∷◌, ◌++◌,
  arith, leb, length, get_or, take-append-drop, length-take,
}
use sni_shaper_linux.Text.{Bytes}
use sni_shaper_linux.Handlers.Fragment.{cut_at, join_body, read_body, read_initial_tls_record}

abbrev pub IsByte : ℕ → Type 0
IsByte b = b < 256

-- The record and what is left are what the client sent, and the record is as long as its header says.
abbrev pub IsFirstRecord : Bytes → Option (Bytes × Bytes) → Type 0
IsFirstRecord s none = Unit
IsFirstRecord s (some (rec, left)) =
    (rec ++ left ≡ s) × (length rec ≡ 5 + (get_or rec 3 0 * 256 + get_or rec 4 0))

cut_at-IsFirstRecord :
    (a b c d e : ℕ) (s : Bytes) (enough : Bool)
    → leb (d * 256 + e) (length s) ≡ enough
    → IsFirstRecord
        (a ∷ b ∷ c ∷ d ∷ e ∷ s)
        (join_body (a ∷ b ∷ c ∷ d ∷ e ∷ []) (cut_at enough (d * 256 + e) s))
cut_at-IsFirstRecord a b c d e s true h = (
  ap (λ t. a ∷ b ∷ c ∷ d ∷ e ∷ t) (take-append-drop (d * 256 + e) s),
  let taken = length-take (d * 256 + e) s in ground arith,
)
cut_at-IsFirstRecord a b c d e s false h = tt

pub read_initial_tls_record-IsFirstRecord :
    (s : Bytes) → IsFirstRecord s (read_initial_tls_record s)
unfolding read_initial_tls_record
read_initial_tls_record-IsFirstRecord [] = tt
read_initial_tls_record-IsFirstRecord (a ∷ []) = tt
read_initial_tls_record-IsFirstRecord (a ∷ b ∷ []) = tt
read_initial_tls_record-IsFirstRecord (a ∷ b ∷ c ∷ []) = tt
read_initial_tls_record-IsFirstRecord (a ∷ b ∷ c ∷ d ∷ []) = tt
read_initial_tls_record-IsFirstRecord (a ∷ b ∷ c ∷ d ∷ e ∷ s) =
    let whole : Bytes = a ∷ b ∷ c ∷ d ∷ e ∷ s in
    let enough : leb 5 (length whole) ≡ true = ground arith in
    subst (λ t. IsFirstRecord whole (read_body (cut_at t 5 whole))) (sym enough)
      (cut_at-IsFirstRecord a b c d e s (leb (d * 256 + e) (length s)) refl)
