-- ===== src/Session/Stream/Feed.antt =====
-- The reads of a session of src/asio_session.cpp, given from a stream of bytes, one at a time.
use liboizys.Common.{
  ℕ, zero, suc, ◌≤◌, ◌<◌, ◌≡◌, ◌≢◌, ◌⊎◌, inl, inr, refl, true, false, ◌&&◌, none, some, [], ◌==◌,
  ltb, leb, length, take, drop, arith,
}
use liboizys.Session.{Bytes, World}
use liboizys.Session.Events.{received, read_failed, read_completes, step}
use liboizys.Session.Stream.{asked, feed}

module _ {W : Type 0} where
  pub feed_stops :
      (eof fuel : ℕ) (bytes : Bytes) (w : World W)
      → asked w.session.reads ≡ none
      → feed eof fuel bytes w ≡ w
  unfolding feed
  feed_stops eof zero bytes w idle = refl
  feed_stops eof (suc fuel) bytes w idle = simp (feed, idle)

  pub feed_takes :
      (eof fuel n : ℕ) (bytes : Bytes) (w : World W)
      → asked w.session.reads ≡ some n
      → n ≤ length bytes
      → feed eof (suc fuel) bytes w
        ≡ feed eof fuel (drop n bytes) (step (read_completes (received (take n bytes))) w)
  unfolding feed
  feed_takes eof fuel n bytes w wants enough =
      let test : leb n (length bytes) ≡ true = ground arith in simp (feed, wants, test)

  pub feed_ends :
      (eof fuel n : ℕ) (bytes : Bytes) (w : World W)
      → asked w.session.reads ≡ some n
      → length bytes < n
      → feed eof (suc fuel) bytes w
        ≡ feed eof fuel [] (step (read_completes (read_failed eof bytes)) w)
  unfolding feed
  feed_ends eof fuel n bytes w wants short =
      let test : leb n (length bytes) ≡ false = ground arith in simp (feed, wants, test)

-- What the test of a header says.
pub refused_header : (a size : ℕ) → (a == 0 && ltb 0 size) ≡ false → (a ≢ 0) ⊎ (size ≡ 0)
refused_header zero size bad = inr (ground arith)
refused_header (suc a) size bad = inl (ground arith)

pub allowed_header : (a size : ℕ) → (a == 0 && ltb 0 size) ≡ true → (a ≡ 0) × (0 < size)
allowed_header a size allowed = ground arith

pub leb→le : (a b : ℕ) → leb a b ≡ true → a ≤ b
leb→le a b test = ground arith
