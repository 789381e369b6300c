-- ===== src/Runner/Client.antt =====
-- The client of the runner API (internal/runner/client.go): what each method makes of the response. Its
-- requests are those that the handlers of the runner API read.
use oplet.Prelude.{ℕ, String, Option, none, some, List, map, Result, ok, err, nat_eq, if◌then◌else◌}
use oplet.Api.{
  Answer, status_code, heartbeat, task_assigned, input_list, input_file, TaskRequestResponse,
}

-- An error of the transport, an answer of a handler, or a status with another body.
pub data Response : Type 0 where
  unreachable : String → Response
  answered : Answer → Response
  foreign : ℕ → String → Response

abbrev pub status_of : Response → ℕ
status_of (unreachable e) = 0
status_of (answered a) = status_code a
status_of (foreign code body) = code

-- `http.Do` and the test of the status; `failed` is the error for another status, which the code prints
-- after it.
abbrev pub expect_ok : {A : Type 0} → String → Response → Result String A → Result String A
expect_ok failed (unreachable e) r = err e
expect_ok failed (answered a) r = if nat_eq (status_code a) 200 then r else err failed
expect_ok failed (foreign code body) r = if nat_eq code 200 then r else err failed

abbrev decode_heartbeat : Response → Result String (ℕ × String)
decode_heartbeat (answered (heartbeat id label)) = ok (id, label)
decode_heartbeat _ = err "failed to decode heartbeat response"

unfoldable pub send_heartbeat : Response → Result String (ℕ × String)
send_heartbeat response = expect_ok "heartbeat failed" response (decode_heartbeat response)

abbrev decode_task : Response → Result String (Option TaskRequestResponse)
decode_task (answered (task_assigned task)) = ok (some task)
decode_task _ = err "failed to decode task response"

-- `ok none` if there is no task
unfoldable pub request_task : Response → Result String (Option TaskRequestResponse)
request_task response =
    if nat_eq (status_of response) 204
    then ok none
    else expect_ok "task request failed" response (decode_task response)

unfoldable pub update_task_status : Response → Result String (Unit {0})
update_task_status response = expect_ok "status update failed" response (ok tt)

unfoldable pub submit_logs : Response → Result String (Unit {0})
submit_logs response = expect_ok "log submission failed" response (ok tt)

-- The name of each listed file, `none` where it is not a text.
abbrev decode_list : Response → Result String (List (Option String))
decode_list (answered (input_list id files)) =
    ok (map (λ (f : String × ℕ × String). some f.0) files)
decode_list _ = err "failed to decode input files response"

unfoldable pub list_input_files : Response → Result String (List (Option String))
list_input_files response = expect_ok "list input files failed" response (decode_list response)

-- The body of a response; `print` is the JSON text of an answer.
abbrev body : (Answer → String) → Response → String
body print (answered (input_file name size type_ content)) = content
body print (answered a) = print a
body print (foreign code text) = text
body print (unreachable e) = ""

unfoldable pub download_input_file : (Answer → String) → Response → Result String String
download_input_file print response =
    expect_ok "download input file failed" response (ok (body print response))

unfoldable pub upload_output_files : Response → Result String (Unit {0})
upload_output_files response = expect_ok "output file upload failed" response (ok tt)
