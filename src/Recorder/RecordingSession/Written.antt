-- ===== src/Recorder/RecordingSession/Written.antt =====
-- What the file of a recording holds: recorder/src/recording/RecordingSession.cpp.
use gambit_record.Common.{
  Bool, true, false, not, ◌&&◌, ◌||◌, some, List, [], ◌∷◌, ◌++◌, map, if◌then◌else◌, ◌==◌, ℤ, pos,
  ◌+ℤ◌, leb_ℤ, max_ℤ, Text, literal, arith, ◌≡◌, refl, ap, sym, ◌∙◌, append_assoc, append-nil,
  Bool-cases, inl, inr,
}
use gambit_record.Recorder.Media.{EncodedSample, StreamDescription, EvidenceMetadata, video}
use gambit_record.Recorder.States.{RecordingState, is_stopped}
use gambit_record.Recorder.Files.{evidence_filename}
use gambit_record.Recorder.Select.{is_key, find_key, since}
use gambit_record.Recorder.Select.Keyframe.{shift}
use gambit_record.Recorder.Mp4Muxer.{Calls, open_file, write}
use gambit_record.Recorder.RecordingSession.{
  RecordingSession, start, wrote, record_sample, opened, await_keyframe, on_sample, on_state,
}

-- Every call of Media Foundation succeeds.
abbrev pub fine : Calls
fine = record { creates = true; begins = true; writes = true; finalizes = true }

abbrev pub feed : Text → List EncodedSample → RecordingSession → RecordingSession
feed timestamp [] st = st
feed timestamp (s ∷ samples) st = feed timestamp samples (on_sample fine timestamp s st)

-- The samples that have a stream.
abbrev pub with_stream : Bool → List EncodedSample → List EncodedSample
with_stream has_audio [] = []
with_stream has_audio (s ∷ rest) =
    if (s.track == video) || has_audio
    then s ∷ with_stream has_audio rest
    else with_stream has_audio rest

abbrev pub longest : ℤ → List EncodedSample → ℤ
longest d [] = d
longest d (s ∷ rest) = longest (max_ℤ d (s.pts +ℤ s.duration)) rest

-- A session that records: the file has these samples.
abbrev at : RecordingSession → Bool → List EncodedSample → ℤ → RecordingSession
at st has_audio written duration = record st {
  muxer =
      some
        (record { writer = true; audio_stream = has_audio; finalized = false; written = written });
  duration_hns = duration;
  state = RecordingState.recording;
}

-- What one sample adds.
abbrev added : Bool → ℤ → EncodedSample → List EncodedSample
added has_audio base s =
    if leb_ℤ base s.pts && ((s.track == video) || has_audio) then shift base s ∷ [] else []

record_sample-at :
    (st : RecordingSession) (has_audio : Bool) (written : List EncodedSample) (duration : ℤ)
    (s : EncodedSample)
    → record_sample fine s
        (at st has_audio written duration)
        (at st has_audio written duration).muxer
      ≡ at st has_audio
          (written ++ added has_audio st.base_pts s)
          (longest duration (map (shift st.base_pts) (since st.base_pts (s ∷ []))))
unfolding record_sample wrote write since
record_sample-at st has_audio written duration s = ground (arith, append-nil written)

feed-at :
    (timestamp : Text) (samples : List EncodedSample) (st : RecordingSession) (has_audio : Bool)
    (written : List EncodedSample) (duration : ℤ)
    → feed timestamp samples (at st has_audio written duration)
      ≡ at st has_audio
          (written ++ map (shift st.base_pts) (since st.base_pts (with_stream has_audio samples)))
          (longest duration (map (shift st.base_pts) (since st.base_pts samples)))
unfolding on_sample on_state since
feed-at timestamp [] st has_audio written duration =
    ap (λ w. at st has_audio w duration) (sym (append-nil written))
feed-at timestamp (s ∷ samples) st has_audio written duration =
    ap (feed timestamp samples) (record_sample-at st has_audio written duration s)
    ∙ feed-at timestamp samples st has_audio (written ++ added has_audio st.base_pts s)
        (longest duration (map (shift st.base_pts) (since st.base_pts (s ∷ []))))
    ∙ ground (
      arith,
      append_assoc written (added has_audio st.base_pts s)
          (map (shift st.base_pts) (since st.base_pts (with_stream has_audio samples))),
    )

-- A session that was started.
abbrev pub started : EvidenceMetadata → StreamDescription → RecordingSession → RecordingSession
started m d st = record st {
  state = RecordingState.waiting_for_keyframe;
  pending_metadata = m;
  pending_description = d;
  path = [];
  duration_hns = pos 0;
}

-- The session after samples whose part from the first video keyframe on is the list.
unfoldable pub recorded :
    Text
    → EvidenceMetadata
    → StreamDescription
    → RecordingSession
    → List EncodedSample
    → RecordingSession
unfolding literal
recorded timestamp m d st [] = started m d st
recorded timestamp m d st (k ∷ rest) = record (started m d st) {
  state = RecordingState.recording;
  path = evidence_filename timestamp st.directory m (literal "record");
  base_pts = k.pts;
  muxer = some (record {
    writer = true;
    audio_stream = d.has_audio;
    finalized = false;
    written = map (shift k.pts) (since k.pts (with_stream d.has_audio (k ∷ rest)));
  });
  duration_hns = longest (pos 0) (map (shift k.pts) (since k.pts (k ∷ rest)));
}

feed-recorded :
    (timestamp : Text) (m : EvidenceMetadata) (d : StreamDescription) (st : RecordingSession)
    (samples : List EncodedSample)
    → feed timestamp samples (started m d st) ≡ recorded timestamp m d st (find_key samples)
unfolding recorded on_sample on_state find_key await_keyframe opened open_file
feed-recorded timestamp m d st [] = refl
feed-recorded timestamp m d st (s ∷ rest) = elim (Bool-cases (is_key s)) [
  | inl e ↦
      ap (λ b. feed timestamp rest (if not b then started m d st else first)) e
      ∙ feed-at timestamp (s ∷ rest) base d.has_audio [] (pos 0)
      ∙ sym (ap (λ b. recorded timestamp m d st (if b then s ∷ rest else find_key rest)) e)
  | inr e ↦
      ap (λ b. feed timestamp rest (if not b then started m d st else first)) e
      ∙ feed-recorded timestamp m d st rest
      ∙ sym (ap (λ b. recorded timestamp m d st (if b then s ∷ rest else find_key rest)) e)
]
  where
    base : RecordingSession
    base = record (started m d st) {
      path = evidence_filename timestamp st.directory m (literal "record");
      base_pts = s.pts;
    }

    first : RecordingSession
    first =
        record_sample fine s (at base d.has_audio [] (pos 0)) (at base d.has_audio [] (pos 0)).muxer

-- A stopped session that is started and then gets any samples, with no failing call, waits until
-- the first video keyframe. With one, it records: the file has the samples from that keyframe on
-- which have a stream and are not before it, in order, with the keyframe's time taken off each; and
-- the duration is the latest end of the samples that are not before the keyframe.
pub start-feed :
    (timestamp : Text) (m : EvidenceMetadata) (d : StreamDescription) (st : RecordingSession)
    (samples : List EncodedSample)
    → st.state ≡ RecordingState.stopped
    → feed timestamp samples (start m d st).0 ≡ recorded timestamp m d st (find_key samples)
unfolding start
start-feed timestamp m d st samples e =
    ap (λ s. feed timestamp samples (choose s).0) e ∙ feed-recorded timestamp m d st samples
  where
    choose : RecordingState → RecordingSession × Bool
    choose s = if not (is_stopped s) then (st, false) else (started m d st, true)
