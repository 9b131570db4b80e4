-- ===== src/Mock/Tests/Storage.antt =====
-- Runs of the code for paths, listings, files and batches on small trees.
use vault_box.Base.{
  ◌≡◌, refl, arith, ℕ, true, false, none, some, List, [], ◌∷◌, ◌<◌, ◌≤◌, length, Text, codes,
  last_index_of, text_dec, starts_with, suc,
}
use vault_box.Base.Dict
use vault_box.Base.Int.{negsuc}
use vault_box.Base.Dict.{Dict}
use vault_box.Base.Uri.{encode}
use vault_box.Mock.Tree.{parse_path, name_of}
use vault_box.Mock.Tree.Paths.{IsSafePath, parse_path-IsSafePath}
use vault_box.Mock.Serve.{Served, served, serve_file, range_of}
use vault_box.Mock.Serve.Ranges.{
  from_to, range_of_bounds, serve_file_backwards, serve_file-from_to, Sends,
}
use vault_box.Mock.Moves.{move, skip, relocate, numbered, free_index, batch_item}
use vault_box.Mock.Moves.Subtree.{get-relocate, expected}
use vault_box.Mock.Moves.Relocate.{IsApart}
use vault_box.Mock.Moves.Numbering.{numbered-IsInjective, free_index-free}
use vault_box.Mock.Moves.Onto.{batch_item-move_onto_self}
use vault_box.Mock.Server.{Result, completed}
use vault_box.Mock.Tests.{tree_three, tree_three-IsTree}

parse_path-IsSafePath_example : IsSafePath (codes "/a/f.txt")
unfolding parse_path text_dec
parse_path-IsSafePath_example = parse_path-IsSafePath (some (codes "a\\f.txt")) refl

range_of_bounds_example : (0 < 3) × (2 ≤ 3)
unfolding range_of text_dec
range_of_bounds_example = range_of_bounds 3 (codes "bytes=0-1") 0 2 refl

abbrev three_bytes : List ℕ
three_bytes = 1 ∷ 2 ∷ 3 ∷ []

serve_file_backwards_example :
    (s : Served) × (serve_file false (from_to 2 0) (codes "f") three_bytes false ≡ served s)
    × (s.status ≡ 206)
    × (s.content_length ≡ negsuc 0)
unfolding encode
serve_file_backwards_example =
    serve_file_backwards (codes "f") three_bytes false refl 2 0 (omega arith) (omega arith)

f_encoded : encode (codes "f") ≡ some (codes "f")
unfolding encode
f_encoded = refl

serve_file-from_to_example :
    Sends (codes "f") three_bytes false f_encoded (from_to 1 2) (2 ∷ 3 ∷ [])
serve_file-from_to_example =
    serve_file-from_to (codes "f") three_bytes false f_encoded 1 2 (omega arith) (omega arith)

a_c-IsApart : IsApart (codes "/a") (codes "/c")
unfolding starts_with
a_c-IsApart [] h = ground (arith, h)
a_c-IsApart (c ∷ []) h = ground (arith, h)
a_c-IsApart (c ∷ d ∷ k) h = ground (arith, h)

get-relocate_example :
    Dict.get
      (codes "/c/f.txt")
      (relocate (λ n. n) true (codes "/a") (codes "/c") (Dict.keys tree_three) tree_three)
    ≡ expected (λ n. n) true (codes "/a") (codes "/c") tree_three (codes "/c/f.txt")
get-relocate_example =
    get-relocate (λ n. n) true (codes "/a") (codes "/c") tree_three tree_three-IsTree.distinct
      a_c-IsApart (codes "/c/f.txt")

abbrev b_name : ℕ → Text
b_name = numbered (codes "/b") []

free_index-free_example :
    Dict.has (b_name (free_index (suc (length tree_three)) 1 b_name tree_three)) tree_three ≡ false
free_index-free_example = free_index-free b_name (numbered-IsInjective (codes "/b") []) 1 tree_three

batch_item-move_onto_self_example :
    (r : Result) × ((batch_item move (codes "/a") skip 9 [] (codes "/a/f.txt") tree_three).1
      ≡ some r)
    × (r.status ≡ completed)
    × (Dict.get
          (codes "/a/f.txt")
          (batch_item move (codes "/a") skip 9 [] (codes "/a/f.txt") tree_three).0
        ≡ none)
unfolding name_of last_index_of starts_with Dict.get Dict.set text_dec
batch_item-move_onto_self_example =
    batch_item-move_onto_self (codes "/a") skip 9 [] (codes "/a/f.txt") tree_three
      (codes "/a/f.txt") refl refl refl
