-- ===== src/Wire/Utf8.antt =====
-- utf8.Valid of Go's package unicode/utf8, on bytes: the ranges of well-formed UTF-8.
use sky_tree.Common.{ℕ, Bool, true, ◌&&◌, [], ◌∷◌, leb, ltb, if◌then◌else◌}
use sky_tree.Mqtt5.Properties.{Bytes}

abbrev between : ℕ → ℕ → ℕ → Bool
between lo hi b = leb lo b && leb b hi

-- The range of the byte that follows `b`, in a sequence of two, three or four bytes.
abbrev second_low : ℕ → ℕ
second_low b =
    if ltb b 0xe1
    then (if ltb b 0xe0 then 0x80 else 0xa0)
    else if ltb b 0xf0
    then 0x80
    else if ltb b 0xf1
    then 0x90
    else 0x80

abbrev second_high : ℕ → ℕ
second_high b =
    if ltb b 0xed then 0xbf else if ltb b 0xee then 0x9f else if ltb b 0xf4 then 0xbf else 0x8f

abbrev continues : ℕ → Bool
continues = between 0x80 0xbf

unfoldable pub utf8_valid : Bytes → Bool
utf8_valid [] = true
utf8_valid (a ∷ []) = ltb a 0x80
utf8_valid (a ∷ b ∷ []) =
    if ltb a 0x80
    then ltb b 0x80
    else between 0xc2 0xdf a && between (second_low a) (second_high a) b
utf8_valid (a ∷ b ∷ c ∷ []) =
    let one = utf8_valid (b ∷ c ∷ []) in
    let two = ltb c 0x80 in
    if ltb a 0x80
    then one
    else between (second_low a) (second_high a) b
      && (if between 0xc2 0xdf a then two else between 0xe0 0xef a && continues c)
utf8_valid (a ∷ b ∷ c ∷ d ∷ s) =
    let one = utf8_valid (b ∷ c ∷ d ∷ s) in
    let two = utf8_valid (c ∷ d ∷ s) in
    let three = utf8_valid (d ∷ s) in
    let four = utf8_valid s in
    if ltb a 0x80
    then one
    else between (second_low a) (second_high a) b
      && (if between 0xc2 0xdf a
          then two
          else continues c
            && (if between 0xe0 0xef a then three else between 0xf0 0xf4 a && continues d && four))
