-- ===== src/Tasks/Json/Tests.antt =====
-- The nesting depth of one text.
use Prim.Native.String as S
use acgps_public.Prelude.{◌≡◌, refl, inl, inr}
use acgps_public.Tasks.Json.{json_nesting_depth}
use acgps_public.Tasks.Json.Nesting.{
  Quoted, closed, inside, Doc, empty, other, quoted, block, write, depth, json_nesting_depth-write,
}

-- `]}` in quotation marks
abbrev brackets : Quoted
brackets = inside "]" refl refl (inside "}" refl refl (closed "\"" refl))

-- `[1,"]}"]`
abbrev list_doc : Doc
list_doc =
    block "[" "]" (inl refl) (inl refl)
      (other "1" refl (refl, refl) (refl, refl)
        (other "," refl (refl, refl) (refl, refl) (quoted "\"" refl brackets empty)))
      empty

-- `{"a":[1,"]}"]}`
abbrev object_doc : Doc
object_doc =
    block "{" "}" (inr refl) (inr refl)
      (quoted "\"" refl (inside "a" refl refl (closed "\"" refl))
        (other ":" refl (refl, refl) (refl, refl) list_doc))
      empty

is_written : write object_doc S.[] ≡ "{\"a\":[1,\"]}\"]}"
unfolding write
is_written = refl

nesting : json_nesting_depth "{\"a\":[1,\"]}\"]}" ≡ 2
unfolding json_nesting_depth
nesting = refl

json_nesting_depth-write_example : json_nesting_depth (write object_doc S.[]) ≡ depth object_doc
json_nesting_depth-write_example = json_nesting_depth-write object_doc
