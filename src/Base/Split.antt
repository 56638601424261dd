-- ===== src/Base/Split.antt =====
-- `str::lines`, `str::split_whitespace`, `join`, and what the code builds of them.
use mathlib.Core.List.{List, [], ◌∷◌, ◌++◌, map}
use terra_translate.Base.Tests.{◌==◌, if◌then◌else◌}
use terra_translate.Base.Strings.{Text, is_whitespace, is_empty, trim}

-- A line that was ended by a line feed loses one carriage return at its end.
unfoldable pub strip_cr : Text → Text
strip_cr [] = []
strip_cr (c ∷ []) = if c == 13 then [] else c ∷ []
strip_cr (c ∷ d ∷ s) = c ∷ strip_cr (d ∷ s)

-- The rest of a text after the part `line` of its current line.
unfoldable pub lines_from : Text → Text → List Text
unfolding strip_cr
lines_from line [] = if is_empty line then [] else line ∷ []
lines_from line (c ∷ s) =
    let ended = strip_cr line ∷ lines_from [] s in
    let longer = lines_from (line ++ c ∷ []) s in if c == 10 then ended else longer

-- `str::lines`
unfoldable pub lines : Text → List Text
unfolding lines_from
lines s = lines_from [] s

unfoldable pub add_word : Text → List Text → List Text
add_word [] words = words
add_word (c ∷ s) words = (c ∷ s) ∷ words

-- The rest of a text after the part `word` of its current word.
unfoldable pub words_from : Text → Text → List Text
unfolding add_word
words_from word [] = add_word word []
words_from word (c ∷ s) =
    let ended = add_word word (words_from [] s) in
    let longer = words_from (word ++ c ∷ []) s in if is_whitespace c then ended else longer

-- `str::split_whitespace`
unfoldable pub split_whitespace : Text → List Text
unfolding words_from is_whitespace
split_whitespace s = words_from [] s

-- `[String]::join`
unfoldable pub join : Text → List Text → Text
join sep [] = []
join sep (x ∷ []) = x
join sep (x ∷ y ∷ xs) = x ++ (sep ++ join sep (y ∷ xs))

-- The words of every line one space apart, the lines one line feed apart, and the whole trimmed:
-- `.lines().map(|line| line.split_whitespace().collect().join(" ")).collect().join("\n").trim()`
unfoldable pub normalize_lines : Text → Text
unfolding lines split_whitespace join trim
normalize_lines text =
    trim (join (10 ∷ []) (map (λ line. join (32 ∷ []) (split_whitespace line)) (lines text)))
