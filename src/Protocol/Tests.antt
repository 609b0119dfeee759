-- ===== src/Protocol/Tests.antt =====
-- The round trips and SafeJoin at concrete messages, frames and paths.
use backuper.Prelude.{
  ℕ, ◌≤◌, ◌&&◌, bytes_eq, ◌≡◌, refl, ◌++◌, [], ◌∷◌, List, true, none, arith, Bytes, utf8, length,
  ltb, All, if◌then◌else◌,
}
use backuper.Prelude.Int.{pos, negsuc}
use backuper.Protocol.Messages.{encode_auth_req, encode_auth_resp}
use backuper.Protocol.Messages.Lists.{
  ListBatch, encode_list_batch, parse_list_batch, Hash, DeltaReq, encode_delta_req, parse_delta_req,
  DiskResp, encode_disk_resp, parse_disk_resp,
}
use backuper.Protocol.Messages.Lists.RoundTrip.{
  parse_list_batch-encode, parse_delta_req-encode, parse_disk_resp-encode,
}
use backuper.Protocol.Frame.{write_frame, append_write, read_frame}
use backuper.Protocol.Frame.RoundTrip.{refused, read_frame-write_frame}
use backuper.Protocol.Paths.{kind, clean_rel, safe_join, ok, err, escapes, join}
use backuper.Protocol.Paths.Cleaning.{IsName}
use backuper.Protocol.Paths.Top.{top, safe_join-top}
use backuper.Protocol.Paths.Absolute.{absolute, IsRoot}
use backuper.Protocol.Paths.Joining.{safe_join-names, safe_join-inside}
use backuper.Protocol.Scanner.{put_u8, put_u32, put_str, big_endian}
use backuper.Protocol.Conn.Handshake
use backuper.Protocol.Conn.Handshake.{accepted, responder_side, initiator_side, auth_handshake}

abbrev password : Bytes
password = utf8 "s3cret"

abbrev docs : Bytes
docs = utf8 "docs"

abbrev list_batch : ListBatch
list_batch = record {
  is_last = true;
  entries =
      record { path = docs; size = 300; mtime = negsuc 0 }
      ∷ record { path = utf8 "a/b"; size = 0; mtime = pos 12 }
      ∷ [];
}

parse_list_batch-encode_example :
    parse_list_batch (encode_list_batch list_batch ++ []) ≡ (list_batch, none)
parse_list_batch-encode_example = parse_list_batch-encode list_batch [] (record {
  count_fits = omega arith;
  entries_fit = (
    record { path_fits = omega arith; size_fits = omega arith; mtime_fits = omega arith },
    (record { path_fits = omega arith; size_fits = omega arith; mtime_fits = omega arith }, tt),
  );
})

abbrev zeros : Hash
zeros = utf8 "00000000000000000000000000000000"

abbrev delta_req : DeltaReq
delta_req = record { path = docs; block_size = 1048576; hashes = zeros ∷ zeros ∷ [] }

parse_delta_req-encode_example :
    parse_delta_req (encode_delta_req delta_req ++ []) ≡ (delta_req, none)
parse_delta_req-encode_example = parse_delta_req-encode delta_req [] (record {
  path_fits = omega arith;
  block_size_fits = omega arith;
  count_fits = omega arith;
  hashes_fit = (refl, (refl, tt));
})

abbrev disk_resp : DiskResp
disk_resp = record {
  mounts = record { mount = utf8 "/data"; total = 4000000000; free = 1000000 } ∷ [];
}

parse_disk_resp-encode_example :
    parse_disk_resp (encode_disk_resp disk_resp ++ []) ≡ (disk_resp, none)
parse_disk_resp-encode_example = parse_disk_resp-encode disk_resp [] (record {
  count_fits = omega arith;
  mounts_fit =
      (record { mount_fits = omega arith; total_fits = omega arith; free_fits = omega arith }, tt);
})

abbrev two_bytes : Bytes
two_bytes = 1 ∷ 2 ∷ []

read_frame-write_frame_example :
    read_frame 2 ((write_frame append_write 5 two_bytes []).0 ++ 9 ∷ []) ≡ (
      if ltb 2 (length two_bytes)
      then refused 2 5 (length two_bytes) (two_bytes ++ 9 ∷ [])
      else record { msg_type = 5; payload = two_bytes; err = none; left = 9 ∷ [] })
read_frame-write_frame_example = read_frame-write_frame 2 5 two_bytes (9 ∷ []) (omega arith)

docs-IsName : IsName docs
unfolding kind
docs-IsName = record { keeps = refl; no_slash = ground arith }

data-IsRoot : IsRoot (utf8 "data" ∷ [])
unfolding kind
data-IsRoot = record {
  all_names = (record { keeps = refl; no_slash = ground arith }, tt);
  below_top = ground arith;
}

docs-clean_rel : clean_rel docs ≡ join (docs ∷ [])
unfolding clean_rel kind
docs-clean_rel = refl

safe_join-names_example :
    safe_join none (absolute (utf8 "data" ∷ [])) (join (docs ∷ docs ∷ []))
    ≡ ok (absolute (utf8 "data" ∷ docs ∷ docs ∷ []))
safe_join-names_example =
    safe_join-names none (utf8 "data" ∷ []) docs (docs ∷ []) data-IsRoot
      (docs-IsName, (docs-IsName, tt))

safe_join-inside_example :
    (ns : List Bytes) × All IsName ns
    × (absolute (utf8 "data" ∷ docs ∷ docs ∷ []) ≡ absolute (utf8 "data" ∷ ns))
safe_join-inside_example =
    safe_join-inside none (utf8 "data" ∷ []) (join (docs ∷ docs ∷ []))
      (absolute (utf8 "data" ∷ docs ∷ docs ∷ [])) data-IsRoot safe_join-names_example

safe_join-top_example : safe_join none top docs ≡ err (escapes docs)
safe_join-top_example = safe_join-top none docs [] docs (docs-IsName, tt) docs-clean_rel

request_fits : length (encode_auth_req (Handshake.auth_req password)) ≤ 65536
unfolding encode_auth_req put_u8 put_str put_u32 big_endian
request_fits = omega arith

response_fits :
    (status : ℕ) → length (encode_auth_resp (Handshake.auth_resp (utf8 "client") status)) ≤ 65536
unfolding encode_auth_resp put_u8 put_str put_u32 big_endian
response_fits status = omega arith

auth_handshake_example :
    (accepted (responder_side 65536 (utf8 "client") password password) ≡ bytes_eq password password)
    × (accepted (
          initiator_side 65536 password
            (utf8 "client")
            (responder_side 65536 (utf8 "client") password password).0.raw)
        ≡ (bytes_eq password password && bytes_eq (utf8 "client") (utf8 "client")))
auth_handshake_example =
    auth_handshake 65536 password password (utf8 "client") (utf8 "client") (omega arith)
      (omega arith) request_fits response_fits (omega arith)
