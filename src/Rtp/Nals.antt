-- ===== src/Rtp/Nals.antt =====
-- `rtp_payloader_send_h264_nal` and the one of H.265, to a depayloader of that codec: whether a unit
-- goes in one packet or in fragments, it arrives whole.
use zstreamer.Common.{
  ℕ, suc, ◌+◌, ◌-◌, ◌/◌, ◌%◌, ◌^◌, ◌≤◌, ◌<◌, ◌≡◌, ◌≢◌, refl, ap, sym, subst, ◌∙◌, Bool, true, ◌||◌,
  Option, some, List, [], ◌∷◌, ◌++◌, if◌then◌else◌, ltb, leb, ◌==◌, length, length-append, get_or,
  arith, if_intro,
}
use zstreamer.Common.Bytes.{drop_bytes}
use zstreamer.Types.{ZstResult, ok}
use zstreamer.Rtp.{Codec, h264, h265, Downstream, Frame}
use zstreamer.Rtp.Payloader.{
  Payloader, Stamp, advance, push_packet, send_fragments, send_h264_nal, send_h265_nal, fu_a, fu_49,
}
use zstreamer.Rtp.Depayloader.{Depayloader, begin_au, append_unit, finish}
use zstreamer.Rtp.Depayloader.Codecs.{depay}
use zstreamer.Rtp.Header.{sent_view}
use zstreamer.Rtp.Expects.{Setting, Expects, behind, received, push_packet-Expects}
use zstreamer.Rtp.Collect.{append_unit-Collects, finish-Ended}
use zstreamer.Rtp.Fragments.{Begun, Gives, Sent, begin_au-Begun, advance-Expects, received-Begun}
use zstreamer.Rtp.Units.{Delivered, fragments-Delivered}
use zstreamer.Rtp.Rounds.{send_cut_lem}
use zstreamer.Rtp.Cuts.{fu_a-CutsAs, fu_49-CutsAs, h264_single, h265_single}

-- A unit that one packet may carry as it is: its type is not that of an aggregation or a fragment.
abbrev pub IsPlain : Codec → List ℕ → Type 0
IsPlain h265 nal =
    (2 ≤ length nal) × (get_or nal 0 0 / 2 % 64 ≢ 48) × (get_or nal 0 0 / 2 % 64 ≢ 49)
IsPlain _ nal = (0 < length nal) × (get_or nal 0 0 % 32 ≢ 24) × (get_or nal 0 0 % 32 ≢ 28)

abbrev pub setting : ℕ → Codec → ℕ → Setting
setting m c q = record { mtu = m; codec = c; rate = q }

module _ {V : Type 0} (serves : ℕ → Bool) (push : Downstream Frame V) where
  module _ (served : (n : ℕ) → serves n ≡ true) (g : Setting) (fits : g.mtu ≤ 65507) where
    -- A unit that fits one packet, from what its handler does.
    single-Sent :
        (nal : List ℕ) (t : Stamp) (acc : List ℕ) (s : Payloader) (d : Depayloader) (v : V)
        → Expects g s d
        → Begun d t.ts acc
        → t.ts < 2 ^ 32
        → length nal + 12 ≤ g.mtu
        → length acc + length nal + 4 < 2 ^ 63
        → ((d0 : Depayloader)
            → let begun = begin_au d0 t.ts in
              depay serves push g.codec (sent_view s nal t.ts t.marker) d0 v
              ≡ finish push begun (append_unit serves begun nal) t.marker v)
        → Sent serves push g t.marker t.ts
            (acc ++ (0 ∷ 0 ∷ 0 ∷ 1 ∷ nal))
            v
            (push_packet (behind serves push) [] nal t s (d, v))
    single-Sent nal t acc s d v x b h l c handled =
        let size = length nal + 0 + 12 in
        let ready = received s size d in
        let s' = advance s size in
        let (x0, k0) =
          begin_au-Begun g s' ready t.ts acc (advance-Expects g s d size size x)
            (received-Begun s d size t.ts acc b) in
        let (d1, e1, x1, k1) =
          append_unit-Collects serves push served g s' (begin_au ready t.ts) t.ts acc nal x0 k0 c in
        let done =
          finish-Ended serves push g s' (begin_au ready t.ts) d1 t.ts _ t.marker v x1 k1
            (omega (arith, length-append acc (0 ∷ 0 ∷ 0 ∷ 1 ∷ nal))) in
        (
          _,
          _,
          _,
          _,
          push_packet-Expects serves push g s d [] nal t v x h fits (omega arith),
          subst (Gives serves push g s' t.marker t.ts (acc ++ (0 ∷ 0 ∷ 0 ∷ 1 ∷ nal)) v)
              (sym (handled ready ∙ ap (λ o. finish push (begin_au ready t.ts) o t.marker v) e1))
              done,
        )

    single-Delivered :
        (nal : List ℕ) (t : Stamp) (acc : List ℕ) (v : V)
        (o : Option (ZstResult × Payloader × (Depayloader × V)))
        (o' : ZstResult × Payloader × (Depayloader × V))
        → o ≡ some o'
        → Sent serves push g t.marker t.ts (acc ++ (0 ∷ 0 ∷ 0 ∷ 1 ∷ nal)) v o'
        → Delivered serves push g t.marker t.ts (acc ++ (0 ∷ 0 ∷ 0 ∷ 1 ∷ nal)) v o
    single-Delivered nal t acc v o o' e (s', r, d', v', e', given) =
        (s', r, d', v', e ∙ ap some e', given)

    -- The ways of `rtp_payloader_send_h264_nal`, for a unit of which the first byte is `n0`.
    h264_way :
        (n0 : ℕ) (rest : List ℕ) (t : Stamp) (s : Payloader) (d : Depayloader) (v : V)
        → 15 ≤ s.mtu
        → send_h264_nal (behind serves push) (n0 ∷ rest) t s (d, v) ≡ (
            if leb (suc (length rest)) (s.mtu - 12)
            then some (push_packet (behind serves push) [] (n0 ∷ rest) t s (d, v))
            else send_fragments
                (behind serves push)
                (suc (length rest))
                (fu_a n0)
                (s.mtu - 12 - 2)
                (n0 ∷ rest)
                t
                1
                true
                (ok, s, (d, v)))
    unfolding send_h264_nal
    h264_way n0 rest t s d v h =
        let way =
          if leb (suc (length rest)) (s.mtu - 12)
          then some (push_packet (behind serves push) [] (n0 ∷ rest) t s (d, v))
          else send_fragments (behind serves push) (suc (length rest)) (fu_a n0) (s.mtu - 12 - 2)
              (n0 ∷ rest) t 1 true (ok, s, (d, v)) in
        if_intro (λ r. r ≡ way) ((length (n0 ∷ rest) == 0) || ltb (s.mtu - 12) 1)
          (λ e. absurd (ground arith))
          (λ _.
            ap
              (λ o.
                if leb (suc (length rest)) (s.mtu - 12)
                then some (push_packet (behind serves push) [] (n0 ∷ rest) t s (d, v))
                else o)
              (send_cut_lem (behind serves push) (s.mtu - 12) 2 (fu_a n0) (n0 ∷ rest) t 1 _
                (omega arith)))

    h265_way :
        (n0 n1 : ℕ) (rest : List ℕ) (t : Stamp) (s : Payloader) (d : Depayloader) (v : V)
        → 15 ≤ s.mtu
        → send_h265_nal (behind serves push) (n0 ∷ n1 ∷ rest) t s (d, v) ≡ (
            if leb (suc (suc (length rest))) (s.mtu - 12)
            then some (push_packet (behind serves push) [] (n0 ∷ n1 ∷ rest) t s (d, v))
            else send_fragments
                (behind serves push)
                (suc (suc (length rest)))
                (fu_49 n0 n1)
                (s.mtu - 12 - 3)
                (n0 ∷ n1 ∷ rest)
                t
                2
                true
                (ok, s, (d, v)))
    unfolding send_h265_nal
    h265_way n0 n1 rest t s d v h =
        let way =
          if leb (suc (suc (length rest))) (s.mtu - 12)
          then some (push_packet (behind serves push) [] (n0 ∷ n1 ∷ rest) t s (d, v))
          else send_fragments (behind serves push) (suc (suc (length rest))) (fu_49 n0 n1)
              (s.mtu - 12 - 3) (n0 ∷ n1 ∷ rest) t 2 true (ok, s, (d, v)) in
        if_intro (λ r. r ≡ way) (ltb (length (n0 ∷ n1 ∷ rest)) 2 || ltb (s.mtu - 12) 1)
          (λ e. absurd (ground arith))
          (λ _.
            ap
              (λ o.
                if leb (suc (suc (length rest))) (s.mtu - 12)
                then some (push_packet (behind serves push) [] (n0 ∷ n1 ∷ rest) t s (d, v))
                else o)
              (send_cut_lem (behind serves push) (s.mtu - 12) 3 (fu_49 n0 n1) (n0 ∷ n1 ∷ rest) t 2 _
                (omega arith)))

  module _ (served : (n : ℕ) → serves n ≡ true) (m q : ℕ) (fits : m ≤ 65507) where
    pub send_h264_nal-Delivered :
        (nal : List ℕ) (t : Stamp) (acc : List ℕ) (s : Payloader) (d : Depayloader) (v : V)
        → 15 ≤ m
        → IsPlain h264 nal
        → Expects (setting m h264 q) s d
        → Begun d t.ts acc
        → t.ts < 2 ^ 32
        → length acc + length nal + 4 < 2 ^ 63
        → Delivered serves push
            (setting m h264 q)
            t.marker
            t.ts
            (acc ++ (0 ∷ 0 ∷ 0 ∷ 1 ∷ nal))
            v
            (send_h264_nal (behind serves push) nal t s (d, v))
    unfolding drop_bytes
    send_h264_nal-Delivered [] t acc s d v w (n, p, p') x b h c = absurd (omega arith)
    send_h264_nal-Delivered (n0 ∷ rest) t acc s d v w (n, p, p') x b h c =
        let g = setting m h264 q in
        let nal : List ℕ = n0 ∷ rest in
        let way = h264_way served g fits n0 rest t s d v (ground arith) in
        let mtu : s.mtu ≡ m = x.same_mtu in
        subst (Delivered serves push g t.marker t.ts (acc ++ (0 ∷ 0 ∷ 0 ∷ 1 ∷ nal)) v) (sym way) (
          if_intro (Delivered serves push g t.marker t.ts (acc ++ (0 ∷ 0 ∷ 0 ∷ 1 ∷ nal)) v)
            (leb (suc (length rest)) (s.mtu - 12))
            (λ l. single-Delivered served g fits nal t acc v _ _ refl (
              single-Sent served g fits nal t acc s d v x b h (ground arith) c
                (λ d0. h264_single serves push (sent_view s nal t.ts t.marker) d0 v n p p')))
            (λ l.
              fragments-Delivered serves push served g (fu_a n0) 2 (n0 ∷ [])
                (fu_a-CutsAs serves push n0) fits (s.mtu - 12 - 2) (omega (arith, mtu))
                (omega (arith, mtu)) nal t 1 acc s d v x b h (ground arith) (omega arith)))

    pub send_h265_nal-Delivered :
        (nal : List ℕ) (t : Stamp) (acc : List ℕ) (s : Payloader) (d : Depayloader) (v : V)
        → 16 ≤ m
        → IsPlain h265 nal
        → Expects (setting m h265 q) s d
        → Begun d t.ts acc
        → t.ts < 2 ^ 32
        → length acc + length nal + 4 < 2 ^ 63
        → Delivered serves push
            (setting m h265 q)
            t.marker
            t.ts
            (acc ++ (0 ∷ 0 ∷ 0 ∷ 1 ∷ nal))
            v
            (send_h265_nal (behind serves push) nal t s (d, v))
    unfolding drop_bytes
    send_h265_nal-Delivered [] t acc s d v w (n, p, p') x b h c = absurd (omega arith)
    send_h265_nal-Delivered (n0 ∷ []) t acc s d v w (n, p, p') x b h c = absurd (omega arith)
    send_h265_nal-Delivered (n0 ∷ n1 ∷ rest) t acc s d v w (n, p, p') x b h c =
        let g = setting m h265 q in
        let nal : List ℕ = n0 ∷ n1 ∷ rest in
        let way = h265_way served g fits n0 n1 rest t s d v (ground arith) in
        let mtu : s.mtu ≡ m = x.same_mtu in
        subst (Delivered serves push g t.marker t.ts (acc ++ (0 ∷ 0 ∷ 0 ∷ 1 ∷ nal)) v) (sym way) (
          if_intro (Delivered serves push g t.marker t.ts (acc ++ (0 ∷ 0 ∷ 0 ∷ 1 ∷ nal)) v)
            (leb (suc (suc (length rest))) (s.mtu - 12))
            (λ l. single-Delivered served g fits nal t acc v _ _ refl (
              single-Sent served g fits nal t acc s d v x b h (ground arith) c
                (λ d0. h265_single serves push (sent_view s nal t.ts t.marker) d0 v n p p')))
            (λ l.
              fragments-Delivered serves push served g (fu_49 n0 n1) 3 (n0 ∷ n1 ∷ [])
                (fu_49-CutsAs serves push n0 n1) fits (s.mtu - 12 - 3) (omega (arith, mtu))
                (omega (arith, mtu)) nal t 2 acc s d v x b h (ground arith) (omega arith)))
