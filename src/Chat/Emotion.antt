-- ===== src/Chat/Emotion.antt =====
-- bufferAndAnalyzeEmotion of internal/api/emotion_tracker.go over the buffers of the store, and the
-- prompt of buildEmotionPrompt. Its calls of the store (append, get, clear) are locked one by one in the
-- source; they are modelled as a run without other calls between.
use nukara.Base.{
  append_assoc, append_nil, ℕ, suc, ◌≤◌, ◌<◌, String, Bool, true, not, ◌==◌, if◌then◌else◌, ltb,
  pos, is_blank, Option, none, some, List, [], ◌∷◌, ◌++◌, keep, keep-append, ltb→lt, length,
  length-append, All, ◌<>◌, ◌≡◌, refl, sym, ap, ◌∙◌, subst, arith, get_or, get_or-put,
  get_or-delete, Bool-cases, inl, inr, eq_iff,
}
use nukara.Store.State.{Store, pair_key}
use nukara.Store.Notifications.{itoa}
use nukara.Store.Activity.{append_emotion_buffer, get_emotion_buffer, clear_emotion_buffer}

abbrev pub emotion_buffer_threshold : ℕ
emotion_buffer_threshold = 5

-- The store, and the messages that are handed to the analysis, if any.
unfoldable pub buffer_and_analyze_emotion :
    Store → String → String → String → Store × Option (List String)
buffer_and_analyze_emotion s user_id bot_id text =
    let (t, count) = append_emotion_buffer s user_id bot_id text in
    if is_blank text
    then (s, none)
    else if ltb count emotion_buffer_threshold
    then (t, none)
    else (clear_emotion_buffer t user_id bot_id, some (get_emotion_buffer t user_id bot_id))

abbrev numbered : ℕ → List String → String
numbered n [] = ""
numbered n (m ∷ ms) = itoa (pos (suc n)) <> (". " <> (m <> ("\n" <> numbered (suc n) ms)))

unfoldable pub build_emotion_prompt : List String → String
unfolding itoa
build_emotion_prompt messages =
    "[system:emotion_analysis]\n"
    <> ("分析以下用户消息的情感状态，返回JSON格式：\n\n"
        <> (numbered 0 messages
            <> ("\n请返回如下JSON（不要其他内容）：\n"
                <> "{\"emotions\":[\"每条消息的情感标签\"],\"trend\":\"positive/negative/neutral\",\"tone\":\"整体语气描述\"}")))

-- The calls for a sequence of messages to one bot: the store and the batches.
unfoldable pub buffer_all : Store → String → String → List String → Store × List (List String)
unfolding buffer_and_analyze_emotion
buffer_all s user_id bot_id [] = (s, [])
buffer_all s user_id bot_id (text ∷ texts) =
    let (t, batch) = buffer_and_analyze_emotion s user_id bot_id text in
    let (t', batches) = buffer_all t user_id bot_id texts in
    elim batch [ none ↦ (t', batches) | some b ↦ (t', b ∷ batches) ]

abbrev pub concat : List (List String) → List String
concat [] = []
concat (xs ∷ xss) = xs ++ concat xss

abbrev pub says : String → Bool
says text = not (is_blank text)

module _ (u b : String) where
  abbrev buffer : Store → List String
  buffer s = get_emotion_buffer s u b

  self : (pair_key u b == pair_key u b) ≡ true
  self = ground (arith, eq_iff (pair_key u b) (pair_key u b))

  buffer-append :
      (s : Store) (text : String)
      → (buffer (append_emotion_buffer s u b text).0 ≡ buffer s ++ text ∷ [])
        × ((append_emotion_buffer s u b text).1 ≡ length (buffer s ++ text ∷ []))
  unfolding get_emotion_buffer append_emotion_buffer
  buffer-append s text =
      let key = pair_key u b in
      (
        get_or-put s.emotion_buffers key key (get_or s.emotion_buffers key [] ++ text ∷ []) []
            ∙ rw self refl,
        refl,
      )

  buffer-clear : (s : Store) → buffer (clear_emotion_buffer s u b) ≡ []
  unfolding get_emotion_buffer clear_emotion_buffer
  buffer-clear s =
      let key = pair_key u b in get_or-delete s.emotion_buffers key key [] ∙ rw self refl

  -- What one call does with a message
  Step : Store → String → Store × Option (List String) → Type 0
  Step s text (t, none) =
      (length (buffer t) < emotion_buffer_threshold)
      × (buffer t ≡ buffer s ++ keep says (text ∷ []))
  Step s text (t, some batch) =
      (buffer t ≡ [])
      × (length batch ≡ emotion_buffer_threshold)
      × (batch ≡ buffer s ++ keep says (text ∷ []))

  buffer_and_analyze_emotion-Step :
      (s : Store) (text : String)
      → length (buffer s) < emotion_buffer_threshold
      → Step s text (buffer_and_analyze_emotion s u b text)
  unfolding buffer_and_analyze_emotion Step
  buffer_and_analyze_emotion-Step s text h = elim (Bool-cases (is_blank text)) [
    | inl e ↦
        let result : buffer_and_analyze_emotion s u b text ≡ (s, none) =
          rw (buffer_and_analyze_emotion, e) refl in
        let nothing : keep says (text ∷ []) ≡ [] = rw e refl in
        subst (Step s text) (sym result)
          (h, sym (append_nil (buffer s)) ∙ ap (◌++◌ (buffer s)) (sym nothing))
    | inr e ↦
        let (t, count) = append_emotion_buffer s u b text in
        let (grown, counted) = buffer-append s text in
        let more = length-append (buffer s) (text ∷ []) in
        let said : keep says (text ∷ []) ≡ text ∷ [] = rw e refl in
        let held = grown ∙ ap (◌++◌ (buffer s)) (sym said) in
        elim (Bool-cases (ltb count emotion_buffer_threshold)) [
          | inl f ↦
              let few = ltb→lt count emotion_buffer_threshold f in
              let result : buffer_and_analyze_emotion s u b text ≡ (t, none) =
                rw (buffer_and_analyze_emotion, e, f) refl in
              subst (Step s text) (sym result) (omega (arith, few, counted, ap length grown), held)
          | inr f ↦
              let many : emotion_buffer_threshold ≤ count = ground arith in
              let result : buffer_and_analyze_emotion s u b text
                  ≡ (clear_emotion_buffer t u b, some (buffer t)) =
                rw (buffer_and_analyze_emotion, e, f) refl in
              subst (Step s text) (sym result)
                (buffer-clear t, omega (arith, many, counted, ap length grown, more, h), held)
        ]
  ]

  Good : Store → List String → Store × List (List String) → Type 0
  Good s texts (t, batches) =
      (length (buffer t) < emotion_buffer_threshold)
      × All (λ batch. length batch ≡ emotion_buffer_threshold) batches
      × (concat batches ++ buffer t ≡ buffer s ++ keep says texts)

  buffer_all-Good :
      (s : Store) (texts : List String)
      → length (buffer s) < emotion_buffer_threshold
      → Good s texts (buffer_all s u b texts)
  unfolding buffer_all Step Good
  buffer_all-Good s [] h = (h, tt, sym (append_nil (buffer s)))
  buffer_all-Good s (text ∷ texts) h =
      go (buffer_and_analyze_emotion s u b text) (buffer_and_analyze_emotion-Step s text h)
        (λ t. buffer_all-Good t texts)
    where
      split : keep says (text ∷ texts) ≡ keep says (text ∷ []) ++ keep says texts
      split = keep-append says (text ∷ []) texts

      go :
          (p : Store × Option (List String))
          → Step s text p
          → ((t : Store)
              → length (buffer t) < emotion_buffer_threshold
              → Good t texts (buffer_all t u b texts))
          → Good s (text ∷ texts) (
              let (t', batches) = buffer_all p.0 u b texts in
              elim p.1 [ none ↦ (t', batches) | some b ↦ (t', b ∷ batches) ])
      go (t, none) (few, grown) ih =
          let (a, c, d) = ih t few in
          (
            a,
            c,
            d
                ∙ ap (λ l. l ++ keep says texts) grown
                ∙ append_assoc (buffer s) (keep says (text ∷ [])) (keep says texts)
                ∙ ap (◌++◌ (buffer s)) (sym split),
          )
      go (t, some batch) (empty, five, grown) ih =
          let (a, c, d) = ih t (omega (arith, ap length empty)) in
          let rest = concat (buffer_all t u b texts).1 in
          let last = buffer (buffer_all t u b texts).0 in
          (
            a,
            (five, c),
            append_assoc batch rest last
                ∙ ap (◌++◌ batch) (d ∙ ap (λ l. l ++ keep says texts) empty)
                ∙ ap (λ l. l ++ keep says texts) grown
                ∙ append_assoc (buffer s) (keep says (text ∷ [])) (keep says texts)
                ∙ ap (◌++◌ (buffer s)) (sym split),
          )

  -- For calls one after the other, where the buffer has fewer than five messages at first: after any
  -- messages it still has; every batch that is analysed has exactly five; and the batches followed by
  -- the buffer are, in their order, the messages that were buffered at first and all that came and
  -- were not blank.
  pub buffer_all-keeps :
      (s : Store) (texts : List String)
      → length (buffer s) < emotion_buffer_threshold
      → let (t, batches) = buffer_all s u b texts in
        (length (buffer t) < emotion_buffer_threshold)
        × All (λ batch. length batch ≡ emotion_buffer_threshold) batches
        × (concat batches ++ buffer t ≡ buffer s ++ keep says texts)
  unfolding Good
  buffer_all-keeps s texts h = buffer_all-Good s texts h
