-- ===== src/Recorder/BrokerUploader/Chunks.antt =====
-- The requests of BrokerUploader::upload in recorder/src/broker/BrokerUploader.cpp.
use gambit_record.Common.{
  ℕ, zero, suc, ◌+◌, ◌≤◌, ◌<◌, Bool, true, false, not, ◌||◌, List, [], Option, none, some, ltb,
  ◌==◌, if◌then◌else◌, Text, is_empty, arith, All, ◌≡◌, ◌≢◌, refl,
}
use gambit_record.Recorder.Media.{EvidenceMetadata}
use gambit_record.Recorder.BrokerUploader.{
  UploadResult, Request, create_upload, resume_upload, put_chunk, Environment, Upload, chunk_size,
  chunk_at, next_offset, after_chunk, upload_chunks, create_then, resume_then, refuse, upload_sized,
  max_recording, video_title, description_of,
}

-- A chunk is a part of the file, of between 1 byte and 1 MiB.
abbrev pub InFile : ℕ → Request → Type 0
InFile total (put_chunk id offset count size) =
    (1 ≤ count) × (count ≤ chunk_size) × (offset + count ≤ total) × (size ≡ total)
InFile total (resume_upload id) = Unit
InFile total (create_upload size title description hash) = size ≡ total

data Sends (total : ℕ) : Option Upload → Type 0 where
  nothing : Sends total none
  sends : (u : Upload) → All (InFile total) u.requests → Sends total (some u)

-- The end of an upload: the fuel did not run out.
if-some :
    (b : Bool) {x y : Option Upload}
    → (b ≡ true → x ≢ none)
    → (b ≡ false → y ≢ none)
    → (if b then x else y) ≢ none
if-some true h k = h refl
if-some false h k = k refl

done : (u : Upload) → some u ≢ none
done u = ground arith

-- The broker's answer 308 to a chunk names an offset behind the chunk's own, or none that is read.
abbrev pub Advances : Environment → ℕ → Type 0
Advances env total =
    (requests : List Request) (id : Text) (offset : ℕ)
    → offset < total
    → (env.broker requests (put_chunk id offset (chunk_at total offset) total)).status ≡ 308
    → offset
      < next_offset env
          (env.broker requests (put_chunk id offset (chunk_at total offset) total)).body
          (offset + chunk_at total offset)

upload_chunks-some :
    (fuel : ℕ) (env : Environment) (total : ℕ) (requests : List Request) (r : UploadResult)
    (offset : ℕ)
    → Advances env total
    → total ≤ fuel + offset
    → upload_chunks fuel env total requests r offset ≢ none
unfolding upload_chunks after_chunk
upload_chunks-some zero env total requests r offset a h =
    if-some (ltb offset total) (λ e. absurd (ground (arith, e, h))) (λ _. done _)
upload_chunks-some (suc fuel) env total requests r offset a h =
    let answer = env.broker requests (put_chunk r.upload_id offset (chunk_at total offset) total) in
    if-some (not (ltb offset total)) (λ _. done _)
      (λ e.
        if-some (env.stops requests) (λ _. done _)
          (λ _.
            if-some (not (env.reads requests)) (λ _. done _)
              (λ _.
                if-some ((answer.status == 200) || (answer.status == 201)) (λ _. done _)
                  (λ _.
                    if-some (not (answer.status == 308)) (λ _. done _)
                      (λ k.
                        let before : offset < total = ground (arith, e) in
                        let next = a requests r.upload_id offset before (ground (arith, k)) in
                        upload_chunks-some fuel env total _ r _ a (omega (arith, h, next)))))))

create_then-some :
    (env : Environment) (total : ℕ) (m : EvidenceMetadata) (requests : List Request) (fuel : ℕ)
    (r : UploadResult)
    → Advances env total
    → total ≤ fuel
    → create_then env total m requests fuel r ≢ none
unfolding create_then
create_then-some env total m requests fuel r a h =
    let create = create_upload total (video_title m) (description_of env.hash m) env.hash in
    let created = env.broker requests create in
    if-some (not (created.status == 201)) (λ _. done _)
      (λ _.
        if-some (is_empty (env.json_string created.body "id")) (λ _. done _)
          (λ _. upload_chunks-some fuel env total _ _ 0 a (omega (arith, h))))

resume_then-some :
    (env : Environment) (total : ℕ) (m : EvidenceMetadata) (fuel : ℕ) (r : UploadResult)
    → Advances env total
    → total ≤ fuel
    → resume_then env total m fuel r ≢ none
unfolding resume_then
resume_then-some env total m fuel r a h =
    let resumed = env.broker [] (resume_upload r.upload_id) in
    if-some (resumed.status == 200)
      (λ _.
        if-some (not (is_empty (env.json_string resumed.body "url"))) (λ _. done _)
          (λ _. upload_chunks-some fuel env total _ r _ a (omega (arith, h))))
      (λ _.
        if-some ((resumed.status == 404) || (resumed.status == 410))
          (λ _. create_then-some env total m _ fuel _ a h) (λ _. done _))

-- An upload of a file of `total` bytes ends within as many rounds of its loop, where every answer 308
-- to a chunk leads to an offset behind the chunk's own.
pub upload_sized-ends :
    (env : Environment) (m : EvidenceMetadata) (id : Text) (fuel total : ℕ)
    → Advances env total
    → total ≤ fuel
    → upload_sized env m id fuel total ≢ none
unfolding upload_sized refuse
upload_sized-ends env m id fuel total a h =
    if-some (total == 0) (λ _. done _)
      (λ _.
        if-some (ltb max_recording total) (λ _. done _)
          (λ _.
            if-some (not env.has_endpoint) (λ _. done _)
              (λ _.
                if-some (not env.has_session) (λ _. done _)
                  (λ _.
                    if-some (not env.has_connection) (λ _. done _)
                      (λ _.
                        if-some (is_empty id) (λ _. create_then-some env total m [] fuel _ a h)
                          (λ _. resume_then-some env total m fuel _ a h))))))
