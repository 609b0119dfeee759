-- ===== src/Client/Tests.antt =====
-- The client answers a request for a file, and one for a delta.
use backuper.Prelude.{
  ◌≡◌, ◌≤◌, refl, none, Bytes, utf8, List, [], ◌∷◌, ◌++◌, map, All, length, drop, arith,
}
use backuper.Prelude.Int.{pos}
use backuper.Prelude.Steps.{stopped, went}
use backuper.Protocol.Messages.{GetReq}
use backuper.Protocol.Paths.{kind, ok, safe_join}
use backuper.Protocol.Paths.Absolute.{absolute}
use backuper.Client.{ClientConfig, Opens, plain_file, returned, append_message}
use backuper.Client.Get.{handle_get}
use backuper.Chunks.Laws.{data_message, joined_parts}
use backuper.Client.Get.Sends.{no_wait, get_resp_message, end_message, handle_get-sends}
use backuper.Client.Delta.{handle_delta}
use backuper.Client.Delta.Answers.{all_answers, handle_delta-answers}

abbrev name : Bytes
name = utf8 "docs"

abbrev contents : Bytes
contents = utf8 "abcxef"

abbrev config : ClientConfig
config = record {
  backup_dir = absolute (utf8 "data" ∷ []);
  chunk_size = 4;
  cwd = none;
  join_text = λ e. [];
}

abbrev opens : Opens
opens p = went (plain_file contents (pos 5) (length contents))

abbrev full : Bytes
full = absolute (utf8 "data" ∷ name ∷ [])

abbrev req : GetReq
req = record { path = name; offset = 1 }

joined : safe_join none (absolute (utf8 "data" ∷ [])) name ≡ ok full
unfolding safe_join kind
joined = refl

handle_get-sends_example :
    (parts : List Bytes) × ((handle_get append_message config opens no_wait 9 req [] ≡ (
      stopped (returned none),
      get_resp_message config opens contents (pos 5)
          ∷ (map data_message parts ++ end_message config opens ∷ []),
    ))
      × ((joined_parts parts ≡ drop 1 contents) × All (λ d. length d ≤ 4) parts))
handle_get-sends_example =
    handle_get-sends config opens contents (pos 5) 9 req full (omega arith) joined refl
      (omega arith) (omega arith)

handle_delta-answers_example :
    handle_delta append_message config opens no_wait
      (λ b. b)
      (record { path = name; block_size = 2; hashes = utf8 "ab" ∷ utf8 "cd" ∷ [] })
      []
    ≡ (
      stopped (returned none),
      all_answers
          (λ b. b)
          2
          (utf8 "abcdef")
          contents
          config
          opens
          (pos 5)
          (utf8 "ab" ∷ utf8 "cd" ∷ []),
    )
handle_delta-answers_example =
    handle_delta-answers (λ b. b) 2 (utf8 "abcdef") contents config opens (pos 5) name full
      (utf8 "ab" ∷ utf8 "cd" ∷ []) (omega arith) joined refl
