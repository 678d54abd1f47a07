-- ===== src/Config/File/Layers.antt =====
-- Which of the two layers, the environment and the file, answers for a setting.
use scan2graph.Prelude.{
  ◌≡◌, refl, ap, ◌+◌, ◌-◌, true, false, not, ◌&&◌, [], ◌∷◌, ◌++◌, Str, codes, arith, is_empty,
  length, take, drop, str_eq_refl, has_suffix, if◌then◌else◌,
}
use scan2graph.Prelude.Dict.{Dict}
use scan2graph.Config.File.{paired_name, find, layer}

length-sum : (s t : Str) → length (s ++ t) ≡ length s + length t
length-sum [] t = omega arith
length-sum (r ∷ s) t = omega (arith, length-sum s t)

length-append : (s t : Str) → length (s ++ t) - length t ≡ length s
length-append s t = omega (arith, length-sum s t)

drop-append : (s t : Str) → drop (length s) (s ++ t) ≡ t
drop-append [] t = refl
drop-append (r ∷ s) t = drop-append s t

take-append : (s t : Str) → take (length s) (s ++ t) ≡ s
take-append [] t = refl
take-append (r ∷ s) t = ap (λ x. r ∷ x) (take-append s t)

has_suffix-append : (s t : Str) → has_suffix (s ++ t) t ≡ true
unfolding has_suffix
has_suffix-append s t = rw (length-append s t) (rw (drop-append s t) (str_eq_refl t))

paired_name-file : (name : Str) → paired_name (name ++ codes "_FILE") ≡ name
unfolding paired_name
paired_name-file name =
    rw (has_suffix-append name (codes "_FILE"))
      (rw (length-append name (codes "_FILE")) (take-append name (codes "_FILE")))

paired_name-plain :
    (name : Str)
    → has_suffix name (codes "_FILE") ≡ false
    → paired_name name ≡ name ++ codes "_FILE"
unfolding paired_name
paired_name-plain name h = rw h refl

-- What `layer` chooses, where the environment has `a` for the name and `b` for the other spelling.
layer-hides :
    (a b x : Str)
    → is_empty a && is_empty b ≡ false
    → (if not (is_empty a) then a else if not (is_empty b) then [] else x) ≡ a
layer-hides [] [] x h = cc
layer-hides [] (c ∷ b) x h = refl
layer-hides (c ∷ a) b x h = refl

layer-yields :
    (a b x : Str)
    → is_empty a && is_empty b ≡ true
    → (if not (is_empty a) then a else if not (is_empty b) then [] else x) ≡ x
layer-yields [] [] x h = refl
layer-yields [] (c ∷ b) x h = cc
layer-yields (c ∷ a) b x h = cc

-- A setting and its "_FILE" spelling come from one layer. The setting's own name does not end in
-- "_FILE". If the environment has either of the two, both are answered by the environment, and what
-- the file says of them is hidden; if it has neither, both are answered by the file. Two spellings
-- that are both set thus are set in one layer.
pub layer-spellings :
    (file : Dict Str) (environ : Str → Str) (name : Str)
    → has_suffix name (codes "_FILE") ≡ false
    → (is_empty (environ name) && is_empty (environ (name ++ codes "_FILE")) ≡ false
        → (layer file environ name ≡ environ name)
          × (layer file environ (name ++ codes "_FILE") ≡ environ (name ++ codes "_FILE")))
      × (is_empty (environ name) && is_empty (environ (name ++ codes "_FILE")) ≡ true
          → (layer file environ name ≡ find file name)
            × (layer file environ (name ++ codes "_FILE") ≡ find file (name ++ codes "_FILE")))
unfolding layer
layer-spellings file environ name plain =
    let other = name ++ codes "_FILE" in
    let a = environ name in
    let b = environ other in
    rw (paired_name-plain name plain) (
      rw (paired_name-file name) (
        λ h. (
          layer-hides a b (find file name) h,
          layer-hides b a (find file other) (ground (arith, h)),
        ),
        λ h. (
          layer-yields a b (find file name) h,
          layer-yields b a (find file other) (ground (arith, h)),
        ),
      ))
