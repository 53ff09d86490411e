-- ===== src/Prelude/TextSort.antt =====
-- sorted() on a list of texts, by insertion.
use Prim.Native.String.{String}
use mathlib.Core.List.{List, [], ◌∷◌}
use pcs_core.Prelude.Tests.{if◌then◌else◌}
use pcs_core.Prelude.TextOrder.{text_lt}

insert_text : String → List String → List String
insert_text s [] = s ∷ []
insert_text s (t ∷ ts) = if text_lt t s then t ∷ insert_text s ts else s ∷ t ∷ ts

-- sorted(xs)
unfoldable pub sort_texts : List String → List String
unfolding insert_text
sort_texts [] = []
sort_texts (s ∷ ss) = insert_text s (sort_texts ss)
