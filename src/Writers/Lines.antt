-- ===== src/Writers/Lines.antt =====
-- The lines of the ingress file of src/service/vm/tunnelwriter/writer.go.
use spacetrek.Prelude.{
  ℕ, ◌≡◌, ◌∙◌, refl, ap, sym, subst, Bool-cases, inl, inr, arith, true, false, List, [], ◌∷◌, ◌++◌,
  Text, codes, ◌==◌, if◌then◌else◌,
}
use spacetrek.Writers.Hosts.{notice}
use spacetrek.Writers.Tunnel.{ends_line, terminated_by_line, wildcard, target, catch_all, render}

-- The lines of a text, the last one also where no line break ends it; `line` is what is read of one.
unfoldable pub lines_from : Text → Text → List Text
lines_from [] [] = []
lines_from (c ∷ cs) [] = (c ∷ cs) ∷ []
lines_from line (c ∷ cs) =
    let rest = lines_from [] cs in
    let more = lines_from (line ++ c ∷ []) cs in if c == b'\n' then line ∷ rest else more

abbrev pub lines : Text → List Text
lines t = lines_from [] t

lines_from-break :
    (line t u : Text)
    → lines_from line ((t ++ b'\n' ∷ []) ++ u) ≡ lines_from line (t ++ b'\n' ∷ []) ++ lines u
unfolding lines_from
lines_from-break line [] u = refl
lines_from-break line (c ∷ t) u = elim (Bool-cases (c == b'\n')) [
  | inl e ↦ rw e (ap (◌∷◌ line) (lines_from-break [] t u))
  | inr e ↦ rw e (lines_from-break (line ++ c ∷ []) t u)
]

-- A text that ends a line, without its last break.
ends_line-split :
    (c : ℕ) (t : Text) → ends_line (c ∷ t) ≡ true → (front : Text) × (c ∷ t ≡ front ++ b'\n' ∷ [])
unfolding ends_line
ends_line-split c [] h = ([], ground arith)
ends_line-split c (d ∷ ds) h = let (front, e) = ends_line-split d ds h in (c ∷ front, ap (◌∷◌ c) e)

closes :
    (line : Text) (c : ℕ)
    → lines_from (line ++ c ∷ []) (b'\n' ∷ []) ≡ lines_from (line ++ c ∷ []) []
unfolding lines_from
closes [] c = refl
closes (d ∷ ds) c = refl

notice_line : (t : Text) → lines (notice ++ t) ≡ lines notice ++ lines t
unfolding lines_from
notice_line t = refl

lines_from-open :
    (line : Text) (c : ℕ) (t : Text)
    → ends_line (c ∷ t) ≡ false
    → lines_from line ((c ∷ t) ++ b'\n' ∷ []) ≡ lines_from line (c ∷ t)
unfolding lines_from ends_line
lines_from-open line c [] h = rw h (closes line c)
lines_from-open line c (d ∷ ds) h = elim (Bool-cases (c == b'\n')) [
  | inl e ↦ rw e (ap (◌∷◌ line) (lines_from-open [] d ds h))
  | inr e ↦ rw e (lines_from-open (line ++ c ∷ []) d ds h)
]

lines-terminated_by_line : (t u : Text) → lines (terminated_by_line t ++ u) ≡ lines t ++ lines u
unfolding terminated_by_line
lines-terminated_by_line [] u = unfold lines_from in refl
lines-terminated_by_line (c ∷ cs) u = elim (Bool-cases (ends_line (c ∷ cs))) [
  | inl e ↦
      let (front, q) = ends_line-split c cs e in
      rw e (subst (λ s. lines (s ++ u) ≡ lines s ++ lines u) (sym q) (lines_from-break [] front u))
  | inr e ↦
      rw e (lines_from-break [] (c ∷ cs) u ∙ ap (λ l. l ++ lines u) (lines_from-open [] c cs e))
]

-- The lines of the ingress file are the notice, those of the header, `ingress:`, those of the static
-- rules and those of the three that route the VMs and catch the rest, whether or not the header and
-- the static rules end with a line break: no rule ever shares a line with them.
pub lines-render :
    (suffix ip header static : Text)
    → lines (render suffix ip header static)
      ≡ lines notice
        ++ (lines header
            ++ ((codes "ingress:" ∷ [])
                ++ (lines static ++ lines (wildcard suffix ++ (target ip ++ catch_all)))))
unfolding render lines_from
lines-render suffix ip header static =
    let rules = wildcard suffix ++ (target ip ++ catch_all) in
    notice_line
      (terminated_by_line header ++ (codes "ingress:\n" ++ (terminated_by_line static ++ rules)))
    ∙ ap (λ l. lines notice ++ l)
        (lines-terminated_by_line header
            (codes "ingress:\n" ++ (terminated_by_line static ++ rules))
          ∙ ap (λ l. lines header ++ ((codes "ingress:" ∷ []) ++ l))
              (lines-terminated_by_line static rules))
