-- ===== src/Files.antt =====
-- The page of files and folders: console/src/pages/FileFolder/index.tsx. The encoding of a path in a
-- URL and the answers of the server are arguments.
pub mod Back
pub mod Messages
mod Tests
use nfx_edge.Common.{
  ℕ, ◌+◌, ◌*◌, ◌/◌, ◌%◌, Text, codes, Bool, true, false, Option, none, some, List, [], ◌∷◌, ◌++◌,
  map, ltb, ◌==◌, if◌then◌else◌, filter, length, take, text_eq, truthy, is_empty, or_else, join,
  split, decimal,
}
use nfx_edge.Modal.Types.{Props, no_props}
use nfx_edge.Certs.{
  Answer, answered, thrown, World, Env, delete_path, export_all, command_message, fail, mutate,
}
use nfx_edge.Certs.Submit.{succeed}

pub data ItemType : Type 0 where
  file : ItemType
  directory : ItemType

pub record FileItem : Type 0 where
  pub name : Text
  pub path : Text
  pub item_type : ItemType
  pub size : Option ℕ

abbrev pub file_folder : Text
file_folder = codes "/filefolder"

-- `xs.slice(0, -1)`
abbrev pub but_last : List Text → List Text
but_last [] = []
but_last (t ∷ []) = []
but_last (t ∷ u ∷ ts) = t ∷ but_last (u ∷ ts)

-- `xs.pop()` of a list of texts, where undefined is the empty text
abbrev pub last_text : List Text → Text
last_text [] = []
last_text (t ∷ []) = t
last_text (t ∷ u ∷ ts) = last_text (u ∷ ts)

-- `path.split("/").filter(Boolean)`
unfoldable pub segments : Text → List Text
unfolding split
segments path = filter truthy (split path b'/')

-- The segments of the directory that the server answered with.
unfoldable pub current_path : Option Text → List Text
unfolding segments
current_path none = []
current_path (some path) = segments path

abbrev pub slashed : List Text → Text
slashed = join (codes "/")

unfoldable pub go_path : (Text → Text) → Text → Text
go_path encode path = file_folder ++ (if truthy path then codes "?path=" ++ encode path else [])

-- Where `handleBack` goes; `none` is the page before, by `navigateBack`.
unfoldable pub handle_back : (Text → Text) → Option Text → Option Text
unfolding current_path go_path
handle_back encode data_path =
    let current = current_path data_path in
    if ltb 0 (length current) then some (go_path encode (slashed (but_last current))) else none

-- Where the link of a segment above the list goes.
unfoldable pub crumb : (Text → Text) → List Text → ℕ → Text
unfolding go_path
crumb encode current i = go_path encode (slashed (take (i + 1) current))

-- What a click on an item does: it goes to a URL, or opens the dialog for a file.
pub data Click : Type 0 where
  goes : (url : Text) → Click
  opens : Props → Click

unfoldable pub handle_item_click : (Text → Text) → FileItem → Click
unfolding go_path split
handle_item_click encode item = elim item.item_type [
  | directory ↦ goes (go_path encode item.path)
  | file ↦ opens (record no_props {
    store = some (codes "websites");
    file_path = some item.path;
    file_name = some item.name;
    folder_name = some (last_text (but_last (split item.path b'/')));
  })
]

-- The path and the folder that `handleDownload` asks for; `none` where it returns at once.
unfoldable pub handle_download : FileItem → Option (Text × Text)
unfolding segments
handle_download item = elim item.item_type [
  | directory ↦ none
  | file ↦ some (item.path, join (codes "_") (but_last (segments item.path)))
]

-- The word for an item of a type.
unfoldable pub item_name : Env → FileItem → Text
item_name env item = elim item.item_type [
  | directory ↦ env.translate (codes "folder")
  | file ↦ env.translate (codes "file")
]

-- The end of a command: its message, or the error, with the texts for success and failure. The
-- text of an exception is made with the text for failure as the default.
unfoldable pub show_outcome : Env → (Text → Text → Text) → Text → Text → Answer → World → World
unfolding command_message fail succeed
show_outcome env api_error ok failed (thrown message) w = fail (api_error message failed) w
show_outcome env api_error ok failed (answered response) w =
    if response.success
    then succeed (command_message env response.message ok) w
    else fail (command_message env response.message failed) w

-- `onConfirm` of `handleDelete`
unfoldable pub delete_confirmed : Env → (Text → Text → Text) → FileItem → World → World
unfolding mutate show_outcome item_name
delete_confirmed env api_error item w =
    let settled = mutate env (delete_path item.path) w in
    show_outcome env api_error (env.translate_for (codes "deleteSuccess") (item_name env item))
      (env.translate_for (codes "deleteFailed") (item_name env item)) settled.0 settled.1

unfoldable pub handle_export_all : Env → (Text → Text → Text) → World → World
unfolding mutate show_outcome
handle_export_all env api_error w =
    let settled = mutate env export_all w in
    show_outcome env api_error (env.translate (codes "exportSuccess"))
      (env.translate (codes "exportFailed")) settled.0 settled.1

-- `toFixed(2)` of a whole number over 1024 or its square, which is exact: rounded to hundredths,
-- halves up.
unfoldable pub to_fixed : ℕ → ℕ → Text
unfolding decimal
to_fixed n unit =
    let hundredths = (n * 100 + unit / 2) / unit in
    decimal (hundredths / 100)
    ++ codes "."
    ++ decimal (hundredths % 100 / 10)
    ++ decimal (hundredths % 10)

unfoldable pub format_bytes : ℕ → Text
unfolding decimal to_fixed
format_bytes bytes =
    if bytes == 0
    then 0x2014 ∷ []
    else if ltb bytes 1024
    then decimal bytes ++ codes " B"
    else if ltb bytes 1048576
    then to_fixed bytes 1024 ++ codes " KB"
    else to_fixed bytes 1048576 ++ codes " MB"

unfoldable pub format_size : Option ℕ → Text
unfolding format_bytes
format_size none = 0x2014 ∷ []
format_size (some bytes) = format_bytes bytes
