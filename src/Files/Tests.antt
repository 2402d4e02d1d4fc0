-- ===== src/Files/Tests.antt =====
-- Runs of the page of files; a path is encoded as itself, and read behind "/filefolder?path=".
use nfx_edge.Common.{
  ℕ, suc, ◌-◌, ◌≤◌, ◌≡◌, refl, Text, codes, true, false, none, some, [], ◌∷◌, ◌++◌, drop, take,
  length, split, decimal, or_else,
}
use nfx_edge.Modal.Types.{initial_state}
use nfx_edge.Query.{invalidate_directory}
use nfx_edge.Certs.{World, Env, delete_path, answered}
use nfx_edge.Files.{
  FileItem, file, segments, go_path, handle_back, current_path, handle_download, delete_confirmed,
  format_size,
}
use nfx_edge.Files.Back.{page_path, back_times, go_on, handle_back_lem}
use nfx_edge.Files.Messages.{Ends, outcome_type, events_after, delete_confirmed_lem}

abbrev same : Text → Text
same path = path

abbrev read : Text → Text
read url = drop 17 url

abbrev deep : Text
deep = codes "/filefolder?path=/a/b//c"

deep_segments : segments (codes "/a/b//c") ≡ codes "a" ∷ codes "b" ∷ codes "c" ∷ []
unfolding segments split
deep_segments = refl

twice_back : back_times same read same 2 deep ≡ some (codes "/filefolder?path=a")
unfolding back_times page_path go_on go_path handle_back current_path segments split
twice_back = refl

big_size : format_size (some 1536) ≡ codes "1.50 KB"
unfolding format_size decimal
big_size = refl

rounded_up : format_size (some 1048575) ≡ codes "1024.00 KB"
unfolding format_size decimal
rounded_up = refl

abbrev notes : FileItem
notes = record { name = codes "r.txt"; path = codes "a/b/r.txt"; item_type = file; size = none }

report_download : handle_download notes ≡ some (codes "a/b/r.txt", codes "a_b")
unfolding handle_download segments split
report_download = refl

handle_back_lem_example :
    ((n : ℕ)
      → n ≤ length (segments (page_path same read same deep))
      → (u : Text) × (back_times same read same n deep ≡ some u)
        × (segments (page_path same read same u)
            ≡ take
                (length (segments (page_path same read same deep)) - n)
                (segments (page_path same read same deep))))
    × (back_times same read same (suc (length (segments (page_path same read same deep)))) deep
        ≡ none)
handle_back_lem_example = handle_back_lem same read same refl (λ path. refl) (λ path. refl) deep

abbrev env : Env
env = record {
  translate = λ key. key;
  translate_for = λ key domain. key ++ domain;
  messages_ns = codes "messages";
  errors_ns = codes "errors";
  bundle = λ ns key. [];
  server = λ calls.
      answered
        (record { success = true; message = codes "OK"; rate_limit = false; retry_after = none });
}

abbrev w0 : World
w0 = record { modal = initial_state; pending = none; navigated = []; calls = []; events = [] }

abbrev api_error : Text → Text → Text
api_error message fallback = or_else message fallback

delete_confirmed_lem_example :
    Ends
      (outcome_type (env.server (w0.calls ++ delete_path notes.path ∷ [])))
      (w0.calls ++ delete_path notes.path ∷ [])
      (w0.events
        ++ events_after
            (env.server (w0.calls ++ delete_path notes.path ∷ []))
            (invalidate_directory ∷ []))
      (delete_confirmed env api_error notes w0)
delete_confirmed_lem_example = delete_confirmed_lem env api_error notes w0
