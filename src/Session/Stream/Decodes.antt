-- ===== src/Session/Stream/Decodes.antt =====
-- src/asio_session.cpp: a session takes from a stream of bytes what the protocol says.
use liboizys.Common.{
  ℕ, zero, suc, ◌+◌, ◌≤◌, ◌<◌, ◌≡◌, ◌≢◌, ◌⊎◌, inl, inr, refl, sym, ap, ◌∙◌, subst, false, ◌&&◌,
  List, [], ◌∷◌, ◌==◌, ltb, leb, Bool-cases, length, take, drop, length-drop, All, All-drop, arith,
}
use liboizys.ComMessage.{IsByte}
use liboizys.ComMessage.Header.{big_endian}
use liboizys.Session.{Bytes, ErrorCode, bad_message, io_error, payload_read, World}
use liboizys.Session.Methods.{read_payload}
use liboizys.Session.Events.{received, read_completes, step}
use liboizys.Session.Stream.{decode, asked, feed}
use liboizys.Session.Stream.Feed.{feed_stops, feed_takes, refused_header, allowed_header, leb→le}
use liboizys.Session.Stream.Reads.{
  HasEnded, cut_off, bad_header-HasEnded, short_stream, after_header, good_header, after_frame,
  frame_taken, IsReader, told,
}

module _ {W : Type 0} (f : Bytes → W → W) (k : ErrorCode → W → W) where
  -- A stream from which all was told f k that it says.
  abbrev Tells : List Bytes × ErrorCode → W → World W → Type 0
  Tells (contents, err) c v = HasEnded f k (told f k contents err c) v

  bad_stream :
      (eof fuel a b c d : ℕ) (rest : Bytes) (w : World W)
      → b < 256
      → c < 256
      → d < 256
      → (a ≢ 0) ⊎ (big_endian b c d ≡ 0)
      → IsReader f k w.session
      → HasEnded f k (k bad_message w.client) (feed eof (suc fuel) (a ∷ b ∷ c ∷ d ∷ rest) w)
  bad_stream eof fuel a b c d rest w hb hc hd bad reader =
      let ended = bad_header-HasEnded f k a b c d w hb hc hd bad reader in
      subst (λ (v : World W). HasEnded f k (k bad_message w.client) v)
        (sym (
          feed_takes eof fuel 4 (a ∷ b ∷ c ∷ d ∷ rest) w (ap asked reader.2.1) (omega arith)
          ∙ feed_stops eof fuel rest (step (read_completes (received (a ∷ b ∷ c ∷ d ∷ []))) w)
              (ap asked ended.2)))
        ended

  cut_content :
      (eof fuel high middle low : ℕ) (rest : Bytes) (w : World W)
      → high < 256
      → middle < 256
      → low < 256
      → 0 < big_endian high middle low
      → length rest < big_endian high middle low
      → IsReader f k w.session
      → HasEnded f k
          (k (io_error eof) w.client)
          (feed eof (suc (suc fuel)) (0 ∷ high ∷ middle ∷ low ∷ rest) w)
  unfolding read_payload
  cut_content eof fuel high middle low rest w hh hm hl positive short reader =
      let size = big_endian high middle low in
      let header : Bytes = 0 ∷ high ∷ middle ∷ low ∷ [] in
      subst (λ (v : World W). HasEnded f k (k (io_error eof) w.client) v)
        (sym (
          feed_takes eof (suc fuel) 4 (0 ∷ high ∷ middle ∷ low ∷ rest) w (ap asked reader.2.1)
            (omega arith)
          ∙ ap (λ (v : World W). feed eof (suc fuel) rest v)
              (good_header f k high middle low w hh hm hl positive reader)))
        (cut_off f k eof fuel size rest (payload_read size) (after_header f k size header w) refl
          reader.0 reader.1 refl short)

  decodes_from :
      (eof n fuel : ℕ) (bytes : Bytes) (w : World W)
      → All IsByte bytes
      → IsReader f k w.session
      → length bytes ≤ n
      → length bytes < fuel
      → Tells (decode eof n bytes) w.client (feed eof fuel bytes w)
  unfolding decode
  decodes_from eof zero fuel bytes w good reader few more =
      short_stream f k eof fuel bytes w reader (omega arith) more
  decodes_from eof (suc n) fuel [] w good reader few more =
      short_stream f k eof fuel [] w reader (omega arith) more
  decodes_from eof (suc n) fuel (a ∷ []) w good reader few more =
      short_stream f k eof fuel (a ∷ []) w reader (omega arith) more
  decodes_from eof (suc n) fuel (a ∷ b ∷ []) w good reader few more =
      short_stream f k eof fuel (a ∷ b ∷ []) w reader (omega arith) more
  decodes_from eof (suc n) fuel (a ∷ b ∷ c ∷ []) w good reader few more =
      short_stream f k eof fuel (a ∷ b ∷ c ∷ []) w reader (omega arith) more
  decodes_from eof (suc n) zero (a ∷ b ∷ c ∷ d ∷ rest) w good reader few more = absurd (omega arith)
  decodes_from eof (suc n) (suc zero) (a ∷ b ∷ c ∷ d ∷ rest) w good reader few more =
      absurd (omega arith)
  decodes_from eof (suc n) (suc (suc fuel)) (a ∷ b ∷ c ∷ d ∷ rest) w (ha, (hb, (hc, (hd, good))))
        reader few more =
      let size = big_endian b c d in
      elim (Bool-cases (a == 0 && ltb 0 size)) [
        | inr bad ↦
            rw (bad, decode)
              (bad_stream eof (suc fuel) a b c d rest w hb hc hd (refused_header a size bad) reader)
        | inl allowed ↦
            let (zero_first, positive) = allowed_header a size allowed in
            elim (Bool-cases (leb size (length rest))) [
              | inr short ↦
                  rw (allowed, short, decode, zero_first)
                    (cut_content eof fuel b c d rest w hb hc hd positive (ground arith) reader)
              | inl enough ↦
                  rw
                    (
                      allowed,
                      enough,
                      decode,
                      zero_first,
                      frame_taken f k eof fuel b c d rest w hb hc hd positive
                          (leb→le size (length rest) enough) reader,
                    )
                    (decodes_from eof n fuel (drop size rest)
                      (after_frame f k (0 ∷ b ∷ c ∷ d ∷ []) (take size rest) w)
                      (All-drop IsByte size rest good)
                      (reader.0, reader.1, (reader.2.0, refl, refl))
                      (omega (arith, length-drop size rest)) (omega (arith, length-drop size rest)))
            ]
      ]

  -- A session that waits for a header, with a client that takes each message and is told of the end,
  -- takes from any stream of bytes what the protocol says: its client gets exactly the contents that
  -- the stream has, in their order, and then the error with which it ends, EBADMSG for a header that
  -- the protocol does not allow, and the error of the socket for a stream that ends, also within a
  -- message. The session is then closed, and reads no more.
  pub feed-decode :
      (eof : ℕ) (bytes : Bytes) (w : World W)
      → All IsByte bytes
      → IsReader f k w.session
      → let (contents, err) = decode eof (length bytes) bytes in
        let v = feed eof (length bytes + 1) bytes w in
        (v.client ≡ told f k contents err w.client)
        × (v.session.is_open ≡ false)
        × (v.session.reads ≡ [])
  feed-decode eof bytes w good reader =
      decodes_from eof (length bytes) (length bytes + 1) bytes w good reader (omega arith)
        (omega arith)
