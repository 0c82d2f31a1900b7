-- ===== src/Recorder/BrokerUploader.antt =====
-- recorder/src/broker/BrokerUploader.cpp and BrokerUploader.hpp. WinHTTP, the hash of the file, the
-- conversions of the endpoint and the JSON parser are parameters; the broker's answers may depend on
-- all requests before.
pub mod Chunks
pub mod Channel
use gambit_record.Common.{
  ℕ, zero, suc, ◌+◌, ◌-◌, ◌*◌, ◌^◌, min, Bool, true, false, not, ◌&&◌, ◌||◌, List, [], ◌∷◌, ◌++◌,
  Option, none, some, ltb, leb, ◌==◌, if◌then◌else◌, length, take, drop, ℤ, pos, negsuc, Text,
  String, literal, decimal, is_empty,
}
use gambit_record.Recorder.Media.{EvidenceMetadata}

pub record UploadResult : Type 0 where
  pub success : Bool
  pub retryable : Bool
  pub upload_id : Text
  pub video_id : Text
  pub url : Text
  pub error : Text

abbrev pub no_result : UploadResult
no_result = record {
  success = false;
  retryable = false;
  upload_id = [];
  video_id = [];
  url = [];
  error = [];
}

-- `operation` is null where there was no network error.
pub record Response : Type 0 where
  pub status : ℕ
  pub body : Text
  pub network_error : ℕ
  pub operation : Option Text

unfoldable pub retryable_status : ℕ → Bool
retryable_status status =
    (status == 0) || (status == 408) || (status == 425) || (status == 429) || leb 500 status

unfoldable pub response_error : Response → Text
unfolding literal
response_error r =
    if r.network_error == 0
    then []
    else literal " (WinHTTP "
      ++ (decimal r.network_error
          ++ (literal " during "
              ++ (elim r.operation [ none ↦ literal "request" | some o ↦ o ] ++ literal ")")))

-- What one attempt of `request` meets.
pub data Attempt : Type 0 where
  open_fails policy_fails send_fails receive_fails : ℕ → Attempt
  answers : ℕ → Text → Attempt

failed : ℕ → String → Response
unfolding literal
failed e operation = record {
  status = 0;
  body = [];
  network_error = e;
  operation = some (literal operation);
}

answer_of : Attempt → Response
unfolding failed
answer_of (open_fails e) = failed e "open"
answer_of (policy_fails e) = failed e "redirect policy"
answer_of (send_fails e) = failed e "send"
answer_of (receive_fails e) = failed e "receive"
answer_of (answers status body) = record {
  status = status;
  body = body;
  network_error = 0;
  operation = none;
}

-- A failure of the network, after which `request` tries again.
is_network : Attempt → Bool
is_network (send_fails e) = true
is_network (receive_fails e) = true
is_network a = false

-- `request`: the attempts from the n-th on, of which `retries` may fail in the network.
unfoldable pub request : (ℕ → Attempt) → ℕ → ℕ → Response
unfolding answer_of is_network
request attempt n zero = answer_of (attempt n)
request attempt n (suc k) =
    let later = request attempt (suc n) k in
    if is_network (attempt n) then later else answer_of (attempt n)

-- The two texts of a video.
unfoldable pub replace : ℕ → ℕ → Text → Text
replace old new [] = []
replace old new (c ∷ s) = (if c == old then new else c) ∷ replace old new s

titled : Text → Text → Text
unfolding literal replace
titled admin stamp =
    let clean = take 11 stamp ++ replace 58 45 (drop 11 stamp) in
    if leb 19 (length stamp)
    then admin ++ (literal " | " ++ (take 10 clean ++ (literal " | " ++ take 8 (drop 11 clean))))
    else admin ++ (literal " | " ++ stamp)

unfoldable pub video_title : EvidenceMetadata → Text
unfolding titled literal replace
video_title m =
    titled (if is_empty m.admin then literal "Unknown_Admin" else m.admin)
      (replace 95 32 m.timestamp)

unfoldable pub description_of : Text → EvidenceMetadata → Text
unfolding literal
description_of hash m =
    literal "Server: "
    ++ (m.server
        ++ (literal "\nObserved player: "
            ++ (m.target_name
                ++ (elim m.target_id [
                  | pos n ↦ literal " [" ++ (decimal n ++ literal "]")
                  | negsuc n ↦ []
                ]
                    ++ (literal "\nCommand: "
                        ++ (m.punishment_command
                            ++ (literal "\nReason: "
                                ++ (m.punishment_reason
                                    ++ (literal "\nRecording period: "
                                        ++ (m.recording_period
                                            ++ (literal "\nGambit Record 0.1.4\nSHA-256: "
                                                ++ hash)))))))))))

pub data Request : Type 0 where
  resume_upload : Text → Request
  create_upload : ℕ → Text → Text → Text → Request
  put_chunk : Text → ℕ → ℕ → ℕ → Request

-- What `upload` finds around it: the build's key, the file's size, the parsed endpoint and both
-- handles, the hash, the broker, the two lookups in an answer's JSON text, and, for a round of the
-- loop, whether a stop is requested and whether the file can be read.
pub record Environment : Type 0 where
  pub has_key : Bool
  pub file_size : Option ℕ
  pub has_endpoint : Bool
  pub has_session : Bool
  pub has_connection : Bool
  pub hash : Text
  pub broker : List Request → Request → Response
  pub json_string : Text → String → Text
  pub stoull : Text → Option ℕ
  pub stops : List Request → Bool
  pub reads : List Request → Bool

-- The end of an upload, with all requests that were made.
pub record Upload : Type 0 where
  pub result : UploadResult
  pub requests : List Request

abbrev pub chunk_size : ℕ
chunk_size = 1048576

-- 4 GiB.
abbrev pub max_recording : ℕ
max_recording = 4 * 1024 * 1024 * 1024

unfoldable pub finish_upload : List Request → UploadResult → Upload
unfolding literal
finish_upload requests r =
    let url =
      if is_empty r.url && not (is_empty r.video_id)
      then literal "https://youtu.be/" ++ r.video_id
      else r.url in
    record {
      requests = requests;
      result = record r {
        url = url;
        success = not (is_empty url);
        error = if is_empty url then literal "broker returned no video URL" else r.error;
      };
    }

unfoldable pub next_offset : Environment → Text → ℕ → ℕ
next_offset env body after =
    let next = env.json_string body "nextOffset" in
    if is_empty next then after else elim (env.stoull next) [ none ↦ after | some n ↦ n ]

reject : List Request → Text → Response → UploadResult → Upload
unfolding literal
reject requests what answer r = record {
  requests = requests;
  result = record r {
    retryable = retryable_status answer.status;
    error =
        what
        ++ (decimal answer.status
            ++ (literal ")" ++ (response_error answer ++ (literal ": " ++ take 240 answer.body))));
  };
}

abbrev pub chunk_at : ℕ → ℕ → ℕ
chunk_at total offset = min chunk_size (total - offset)

-- The answer to a chunk: it ends the upload, or `rest` goes on.
unfoldable pub after_chunk :
    Environment → List Request → UploadResult → Response → Option Upload → Option Upload
unfolding literal reject
after_chunk env requests r answer rest =
    if (answer.status == 200) || (answer.status == 201)
    then some (
        finish_upload requests (record r {
          video_id = env.json_string answer.body "videoId";
          url = env.json_string answer.body "url";
        }))
    else if not (answer.status == 308)
    then some (reject requests (literal "broker upload failed (HTTP ") answer r)
    else rest

-- The `while` loop; nothing where the fuel runs out.
unfoldable pub upload_chunks : ℕ → Environment → ℕ → List Request → UploadResult → ℕ → Option Upload
unfolding literal
upload_chunks zero env total requests r offset =
    if ltb offset total then none else some (finish_upload requests r)
upload_chunks (suc fuel) env total requests r offset =
    let count = chunk_at total offset in
    let chunk = put_chunk r.upload_id offset count total in
    let answer = env.broker requests chunk in
    let more = requests ++ chunk ∷ [] in
    let rest = upload_chunks fuel env total more r (next_offset env answer.body (offset + count)) in
    if not (ltb offset total)
    then some (finish_upload requests r)
    else if env.stops requests
    then some (record {
      requests = requests;
      result = record r { retryable = true; error = literal "upload cancelled during shutdown" };
    })
    else if not (env.reads requests)
    then some (record {
      requests = requests;
      result = record r { error = literal "recording read failed" };
    })
    else after_chunk env more r answer rest

-- A new upload at the broker.
unfoldable pub create_then :
    Environment → ℕ → EvidenceMetadata → List Request → ℕ → UploadResult → Option Upload
unfolding literal
create_then env total m requests fuel r =
    let create = create_upload total (video_title m) (description_of env.hash m) env.hash in
    let created = env.broker requests create in
    let more = requests ++ create ∷ [] in
    let id = env.json_string created.body "id" in
    if not (created.status == 201)
    then some (record {
      requests = more;
      result = record r {
        retryable = retryable_status created.status;
        error =
            literal "broker session failed (HTTP "
            ++ (decimal created.status ++ (literal "): " ++ take 240 created.body));
      };
    })
    else if is_empty id
    then some (record {
      requests = more;
      result = record r { error = literal "broker returned no upload id" };
    })
    else upload_chunks fuel env total more (record r { upload_id = id }) 0

-- An offset behind the end of the file, or none, starts again.
unfoldable pub resume_offset : Environment → ℕ → Text → ℕ
resume_offset env total body = elim (env.stoull (env.json_string body "nextOffset")) [
  | none ↦ 0
  | some n ↦ if ltb total n then 0 else n
]

unfoldable pub resume_then : Environment → ℕ → EvidenceMetadata → ℕ → UploadResult → Option Upload
unfolding literal
resume_then env total m fuel r =
    let ask = resume_upload r.upload_id in
    let resumed = env.broker [] ask in
    let url = env.json_string resumed.body "url" in
    let again = upload_chunks fuel env total (ask ∷ []) r (resume_offset env total resumed.body) in
    let anew = create_then env total m (ask ∷ []) fuel (record r { upload_id = [] }) in
    if resumed.status == 200
    then (if not (is_empty url)
        then some (record {
          requests = ask ∷ [];
          result = record r {
            success = true;
            url = url;
            video_id = env.json_string resumed.body "videoId";
          };
        })
        else again)
    else if (resumed.status == 404) || (resumed.status == 410)
    then anew
    else some (record {
      requests = ask ∷ [];
      result = record r {
        retryable = retryable_status resumed.status;
        error =
            literal "broker resume failed (HTTP "
            ++ (decimal resumed.status ++ (literal ")" ++ response_error resumed));
      };
    })

refuse : Bool → Text → Option Upload
refuse retryable error =
    some
      (record { requests = []; result = record no_result { retryable = retryable; error = error } })

unfoldable pub upload_sized : Environment → EvidenceMetadata → Text → ℕ → ℕ → Option Upload
unfolding literal refuse
upload_sized env m resume_id fuel total =
    let r = record no_result { upload_id = resume_id } in
    if total == 0
    then refuse false (literal "recording file is missing")
    else if ltb max_recording total
    then refuse false (literal "recording exceeds the 4 GiB broker limit")
    else if not env.has_endpoint
    then refuse false (literal "invalid HTTPS broker endpoint")
    else if not env.has_session
    then refuse true (literal "WinHTTP initialization failed")
    else if not env.has_connection
    then refuse true (literal "broker unavailable")
    else if is_empty resume_id
    then create_then env total m [] fuel r
    else resume_then env total m fuel r

unfoldable pub upload : Environment → Bool → EvidenceMetadata → Text → ℕ → Option Upload
unfolding literal refuse
upload env enabled m resume_id fuel =
    if not enabled
    then refuse false (literal "Broker upload is disabled")
    else if not env.has_key
    then refuse false (literal "This build has no broker key")
    else elim env.file_size [
      | none ↦ refuse false (literal "recording file is missing")
      | some total ↦ upload_sized env m resume_id fuel total
    ]
