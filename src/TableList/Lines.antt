-- ===== src/TableList/Lines.antt =====
-- How the scanning functions of a line of the table list read what is written in it.
use rds_dbsync.Base.{ℕ, ◌≡◌, refl, true, false, List, [], ◌∷◌, ◌++◌, Text, All, ◌==◌, ap}
use rds_dbsync.TableList.{
  is_blank, lines_of, skip_blanks, up_to_colon, behind_colon, trim_end, unless_blank,
}

abbrev pub IsBlank : Text → Type 0
IsBlank = All (λ c. is_blank c ≡ true)

-- No byte of the text is `d`.
abbrev pub Without : ℕ → Text → Type 0
Without d = All (λ c. (c == d) ≡ false)

abbrev pub StartsSolid : Text → Type 0
StartsSolid [] = Unit
StartsSolid (c ∷ cs) = is_blank c ≡ false

abbrev pub EndsSolid : Text → Type 0
EndsSolid [] = Unit
EndsSolid (c ∷ []) = is_blank c ≡ false
EndsSolid (c ∷ d ∷ ds) = EndsSolid (d ∷ ds)

pub skip_blanks-append :
    (blanks t : Text) → IsBlank blanks → StartsSolid t → skip_blanks (blanks ++ t) ≡ t
unfolding skip_blanks
skip_blanks-append [] [] h s = refl
skip_blanks-append [] (c ∷ cs) h s = rw s refl
skip_blanks-append (b ∷ bs) t h s = rw h.0 (skip_blanks-append bs t h.1 s)

pub up_to_colon-append :
    (t rest : Text) → Without 58 t → up_to_colon (t ++ rest) ≡ t ++ up_to_colon rest
unfolding up_to_colon
up_to_colon-append [] rest h = refl
up_to_colon-append (c ∷ cs) rest h = rw h.0 (ap (◌∷◌ c) (up_to_colon-append cs rest h.1))

pub behind_colon-append :
    (t rest : Text) → Without 58 t → behind_colon (t ++ rest) ≡ behind_colon rest
unfolding behind_colon
behind_colon-append [] rest h = refl
behind_colon-append (c ∷ cs) rest h = rw h.0 (behind_colon-append cs rest h.1)

trim_end-IsBlank : (blanks : Text) → IsBlank blanks → trim_end blanks ≡ []
unfolding trim_end
trim_end-IsBlank [] h = refl
trim_end-IsBlank (b ∷ bs) h = rw (trim_end-IsBlank bs h.1, unless_blank, h.0) refl

pub trim_end-append : (t blanks : Text) → EndsSolid t → IsBlank blanks → trim_end (t ++ blanks) ≡ t
unfolding trim_end
trim_end-append [] blanks s h = trim_end-IsBlank blanks h
trim_end-append (c ∷ []) blanks s h = rw (trim_end-IsBlank blanks h, unless_blank, s) refl
trim_end-append (c ∷ d ∷ ds) blanks s h = rw (trim_end-append (d ∷ ds) blanks s h) refl

pub lines_of-append :
    (line rest : List ℕ) → Without 10 line → lines_of (line ++ (10 ∷ rest)) ≡ line ∷ lines_of rest
unfolding lines_of
lines_of-append [] rest h = refl
lines_of-append (c ∷ cs) rest h = rw (h.0, lines_of-append cs rest h.1) refl
