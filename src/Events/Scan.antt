-- ===== src/Events/Scan.antt =====
-- The loop of `feedSse` of ext-pi/src/manager/events.ts: what its two ways out of a slice keep, it
-- keeps.
use agent_cat.Base.{
  ℕ, ◌≡◌, sym, ◌∙◌, inl, inr, true, false, List, [], ◌∷◌, ◌++◌, reverse, ◌==◌, Bool-cases, ok,
  ◌>>=◌, >>=-eq-ok, subst-ok,
}
use agent_cat.Events.Blocks.{Bytes, Decoder, SseBlock}
use agent_cat.Events.Parser.{SseParser, Fed, end_line, end_chunk, scan, feed_sse}

scan-feed :
    (decode : Decoder) (s : SseParser) (newest chunk : Bytes) (c : ℕ)
    → (c == 10) ≡ true
    → scan decode s newest (c ∷ chunk) ≡ (
        end_line decode s (reverse newest) >>= λ (next, blocks).
        scan decode next [] chunk >>= λ (last, later). ok (last, blocks ++ later))
unfolding scan
scan-feed decode s newest chunk c feed = rw feed

scan-other :
    (decode : Decoder) (s : SseParser) (newest chunk : Bytes) (c : ℕ)
    → (c == 10) ≡ false
    → scan decode s newest (c ∷ chunk) ≡ scan decode s (c ∷ newest) chunk
unfolding scan
scan-other decode s newest chunk c other = rw other

-- A relation of a parser and what comes of it, which holds of a line and of the end of a chunk and
-- which composes, holds of every chunk.
module _ (decode : Decoder) (R : SseParser → Fed → Type 0)
    (at_line : (s : SseParser) (slice : Bytes) (fed : Fed)
      → end_line decode s slice ≡ ok fed
      → R s fed)
    (at_end : (s : SseParser) (slice : Bytes) (fed : Fed) → end_chunk s slice ≡ ok fed → R s fed)
    (compose : (s next last : SseParser) (blocks later : List SseBlock)
      → R s (next, blocks)
      → R next (last, later)
      → R s (last, blocks ++ later)) where
  scan-relates :
      (s : SseParser) (newest chunk : Bytes) {fed : Fed}
      → scan decode s newest chunk ≡ ok fed
      → R s fed
  unfolding scan
  scan-relates s newest [] {fed = fed} h = at_end s (reverse newest) fed h
  scan-relates s newest (c ∷ chunk) h = elim (Bool-cases (c == 10)) [
    | inl feed ↦
        let ((next, blocks), first, h₁) =
          >>=-eq-ok (end_line decode s (reverse newest)) _
            (sym (scan-feed decode s newest chunk c feed) ∙ h) in
        let ((last, later), rest, h₂) = >>=-eq-ok (scan decode next [] chunk) _ h₁ in
        subst-ok (R s) h₂ (
          compose s next last blocks later (at_line s (reverse newest) (next, blocks) first)
            (scan-relates next [] chunk rest))
    | inr other ↦
        scan-relates s (c ∷ newest) chunk (sym (scan-other decode s newest chunk c other) ∙ h)
  ]

  pub feed_sse-relates :
      (s : SseParser) (chunk : Bytes) {fed : Fed} → feed_sse decode s chunk ≡ ok fed → R s fed
  unfolding feed_sse
  feed_sse-relates s chunk h = scan-relates s [] chunk h

-- What a line and the end of a chunk keep.
pub feed_sse-keeps :
    (decode : Decoder) (P : SseParser → Type 0)
    → ((s : SseParser) (slice : Bytes) (fed : Fed)
        → P s
        → end_line decode s slice ≡ ok fed
        → P fed.0)
    → ((s : SseParser) (slice : Bytes) (fed : Fed) → P s → end_chunk s slice ≡ ok fed → P fed.0)
    → (s : SseParser) (chunk : Bytes) {fed : Fed} → P s
    → feed_sse decode s chunk ≡ ok fed
    → P fed.0
feed_sse-keeps decode P at_line at_end s chunk p h =
    feed_sse-relates decode (λ t fed. P t → P fed.0) (λ t slice fed e q. at_line t slice fed q e)
      (λ t slice fed e q. at_end t slice fed q e) (λ t next last blocks later f g q. g (f q)) s
      chunk h p
