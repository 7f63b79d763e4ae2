-- ===== src/Rtp/Buffers.antt =====
-- A buffer of NAL units goes through a payloader and the depayloader behind it.
use zstreamer.Common.{
  ℕ, zero, suc, ◌+◌, ◌^◌, ◌≤◌, ◌<◌, ◌≡◌, refl, ap, sym, subst, ◌∙◌, inl, inr, Bool, true, false,
  none, some, List, [], ◌∷◌, ◌++◌, length, length-append, arith,
}
use mathlib.Core.List.{append_assoc, append-nil}
use zstreamer.Common.Bytes.{drop_bytes, drop-append}
use zstreamer.Types.{ZstResult, ok}
use zstreamer.Rtp.{Codec, Downstream, Frame, pts_to_rtp_ts}
use zstreamer.Rtp.StartCodes.{find_from, find_start_code}
use zstreamer.Rtp.Payloader.{Payloader, Stamp}
use zstreamer.Rtp.Payloader.Access.{Send, nal_between, send_between, send_nals, packetize_nals}
use zstreamer.Rtp.Depayloader.{Depayloader}
use zstreamer.Rtp.Expects.{Setting, Expects}
use zstreamer.Rtp.Fragments.{Begun, Gives}
use zstreamer.Rtp.Units.{Delivered}
use zstreamer.Rtp.Nals.{IsPlain}
use zstreamer.Rtp.AnnexB.{
  NalUnit, start_code, annex_b, with_codes, HasNoCode, EndsInBit, find_from-nal, find_from-code,
  nal_between-nal, length-with_codes, units-le-bytes,
}

-- A unit that an encoder of the codec may write.
abbrev pub IsUnit : Codec → NalUnit → Type 0
IsUnit c u = HasNoCode u.nal × EndsInBit u.nal × IsPlain c u.nal

abbrev pub AreUnits : Codec → List NalUnit → Type 0
AreUnits c [] = Unit
AreUnits c (u ∷ us) = IsUnit c u × AreUnits c us

length-unit : (nal : List ℕ) → EndsInBit nal → 0 < length nal
length-unit [] h = absurd h
length-unit (b ∷ bs) h = omega arith

module _ {W : Type 0} (send : Send W) (media nal : List ℕ) (t : Stamp) where
  last_unit :
      (rounds pos code : ℕ) (r : ZstResult × Payloader × W)
      → find_start_code media (pos + code) ≡ none
      → nal_between media (pos + code) (length media) ≡ nal
      → send_nals (suc rounds) send media t pos code r
        ≡ send_between send nal (record t { marker = true }) r
  unfolding send_nals
  last_unit rounds pos code r f n = ground (arith, f, n)

  inner_unit :
      (rounds pos code next next_code : ℕ) (r r' : ZstResult × Payloader × W)
      → find_start_code media (pos + code) ≡ some (next, next_code)
      → nal_between media (pos + code) next ≡ nal
      → send_between send nal (record t { marker = false }) r ≡ some r'
      → send_nals (suc rounds) send media t pos code r
        ≡ send_nals rounds send media t next next_code r'
  unfolding send_nals
  inner_unit rounds pos code next next_code r r' f n e = ground (arith, f, n, e)

nothing_left : (pos : ℕ) → find_from [] pos ≡ none
unfolding find_from
nothing_left pos = refl

packetized :
    {W : Type 0} (send : Send W) (media : List ℕ) (pts_ns : ℕ) (s : Payloader) (w : W)
    (pos code : ℕ)
    → 0 < length media
    → find_start_code media 0 ≡ some (pos, code)
    → packetize_nals send media pts_ns s w
      ≡ send_nals
          (length media)
          send
          media
          (record { ts = pts_to_rtp_ts pts_ns 90000; marker = true; pts_ns = pts_ns })
          pos
          code
          (ok, s, w)
unfolding packetize_nals
packetized send media pts_ns s w pos code h e = ground (arith, e)

-- Where a buffer has a unit and more at an offset, the unit is found, and then what follows it.
module _ (pre nal rest media : List ℕ) (start : ℕ) (l : length pre ≡ start)
    (m : media ≡ pre ++ (nal ++ rest)) (h : HasNoCode nal) (e : EndsInBit nal) where
  found_next : find_start_code media start ≡ find_from rest (start + length nal)
  unfolding find_start_code
  found_next =
      ap (λ bs. find_from (drop_bytes start bs) start) m
      ∙ ap (λ bs. find_from bs start) (drop-append start pre (nal ++ rest) l)
      ∙ find_from-nal nal rest start h e

  found_nal : nal_between media start (start + length nal) ≡ nal
  found_nal =
      ap (λ bs. nal_between bs start (start + length nal)) m
      ∙ nal_between-nal pre nal rest start l e

  length-media : length media ≡ start + length nal + length rest
  length-media =
      ap length m ∙ omega (arith, length-append pre (nal ++ rest), length-append nal rest)

found_code :
    (u : NalUnit) (us : List NalUnit) (pos : ℕ)
    → 0 < length u.nal
    → find_from (annex_b (u ∷ us)) pos ≡ some (pos, length (start_code u.long))
found_code u us pos h =
    find_from-code u.long (u.nal ++ annex_b us) pos
      (omega (arith, length-append u.nal (annex_b us)))

found_first :
    (u : NalUnit) (us : List NalUnit)
    → 0 < length u.nal
    → find_start_code (annex_b (u ∷ us)) 0 ≡ some (0, length (start_code u.long))
unfolding find_start_code drop_bytes
found_first u us h = found_code u us 0 h

module _ {V : Type 0} (serves : ℕ → Bool) (push : Downstream Frame V) where
  abbrev Out : Type 0
  Out = ZstResult × Payloader × (Depayloader × V)

  -- What it means for a function to send each unit of a codec.
  abbrev pub SendsWell : Setting → ℕ → Send (Depayloader × V) → Type 0
  SendsWell g ts send =
      (nal : List ℕ) (t : Stamp) (acc : List ℕ) (s : Payloader) (d : Depayloader) (v : V)
      → t.ts ≡ ts
      → IsPlain g.codec nal
      → Expects g s d
      → Begun d ts acc
      → length acc + length nal + 4 < 2 ^ 63
      → Delivered serves push g t.marker ts (acc ++ (0 ∷ 0 ∷ 0 ∷ 1 ∷ nal)) v (send nal t s (d, v))

  between-Delivered :
      (g : Setting) (send : Send (Depayloader × V)) (nal : List ℕ) (t : Stamp) (au : List ℕ)
      (s : Payloader) (d : Depayloader) (v : V)
      → 0 < length nal
      → Delivered serves push g t.marker t.ts au v (send nal t s (d, v))
      → Delivered serves push g t.marker t.ts au v (send_between send nal t (ok, s, (d, v)))
  unfolding send_between
  between-Delivered g send nal t au s d v n (s', r, d', v', e, given) =
      (s', r, d', v', ground (arith, e), given)

  send_nals-Delivered :
      (rounds : ℕ) (g : Setting) (send : Send (Depayloader × V)) (t : Stamp)
      → SendsWell g t.ts send
      → (u : NalUnit) (us : List NalUnit) (media pre acc : List ℕ) (pos : ℕ) (s : Payloader)
        (d : Depayloader) (v : V)
      → media ≡ pre ++ annex_b (u ∷ us)
      → length pre ≡ pos
      → length us < rounds
      → AreUnits g.codec (u ∷ us)
      → Expects g s d
      → Begun d t.ts acc
      → length acc + length (with_codes (u ∷ us)) < 2 ^ 63
      → Delivered serves push g true t.ts
          (acc ++ with_codes (u ∷ us))
          v
          (send_nals rounds send media t pos (length (start_code u.long)) (ok, s, (d, v)))
  send_nals-Delivered zero g send t well u us media pre acc pos s d v m l r a x b c =
      absurd (omega arith)
  send_nals-Delivered (suc rounds) g send t well u [] media pre acc pos s d v m l r a x b c =
      let ((h, e, plain), _) = a in
      let code = length (start_code u.long) in
      let split = m ∙ sym (append_assoc pre (start_code u.long) (u.nal ++ [])) in
      let start : length (pre ++ start_code u.long) ≡ pos + code =
        omega (arith, length-append pre (start_code u.long)) in
      let nothing =
        found_next (pre ++ start_code u.long) u.nal [] media (pos + code) start split h e in
      let n = length-media (pre ++ start_code u.long) u.nal [] media (pos + code) start split h e in
      let unit = found_nal (pre ++ start_code u.long) u.nal [] media (pos + code) start split h e in
      let end : length media ≡ pos + code + length u.nal = omega (arith, n) in
      let whole : length u.nal ≡ length (u.nal ++ []) = ap length (sym (append-nil u.nal)) in
      subst (Delivered serves push g true t.ts (acc ++ with_codes (u ∷ [])) v)
        (sym (
          last_unit send media u.nal t rounds pos code (ok, s, (d, v))
            (nothing ∙ nothing_left (pos + code + length u.nal))
            (ap (nal_between media (pos + code)) end ∙ unit)))
        (subst
          (λ bs.
            Delivered serves push g true t.ts (acc ++ (0 ∷ 0 ∷ 0 ∷ 1 ∷ bs)) v
              (send_between send u.nal (record t { marker = true }) (ok, s, (d, v))))
          (sym (append-nil u.nal))
          (between-Delivered g send u.nal (record t { marker = true }) _ s d v (length-unit u.nal e)
            (well u.nal (record t { marker = true }) acc s d v refl plain x b
              (omega (arith, whole)))))
  send_nals-Delivered (suc rounds) g send t well u (u2 ∷ us) media pre acc pos s d v m l r a x b c =
      let ((h, e, plain), a') = a in
      let ((h2, e2, plain2), _) = a' in
      let code = length (start_code u.long) in
      let before = pre ++ start_code u.long in
      let more = annex_b (u2 ∷ us) in
      let split = m ∙ sym (append_assoc pre (start_code u.long) (u.nal ++ more)) in
      let start : length before ≡ pos + code =
        omega (arith, length-append pre (start_code u.long)) in
      let next = found_next before u.nal more media (pos + code) start split h e in
      let unit = found_nal before u.nal more media (pos + code) start split h e in
      let (s', q, d', v', sent, (x', (qo, vo, k'))) =
        between-Delivered g send u.nal (record t { marker = false }) _ s d v (length-unit u.nal e)
          (well u.nal (record t { marker = false }) acc s d v refl plain x b
            (omega (arith, length-append u.nal (with_codes (u2 ∷ us))))) in
      let next_pos = pos + code + length u.nal in
      let again = found_code u2 us next_pos (length-unit u2.nal e2) in
      let (s2, r2, d2, v2, done, given) =
        send_nals-Delivered rounds g send t well u2 us media (before ++ u.nal) _ next_pos s' d' v
          (split ∙ sym (append_assoc before u.nal more)) (omega (arith, length-append before u.nal))
          (omega arith) a' x' (inr k')
          (omega (
            arith,
            length-append acc (0 ∷ 0 ∷ 0 ∷ 1 ∷ u.nal),
            length-append u.nal (with_codes (u2 ∷ us)),
          )) in
      let kept : (q, s', (d', v')) ≡ (ok, s', (d', v)) =
        ap (λ q'. (q', s', (d', v'))) qo ∙ ap (λ w. (ok, s', (d', w))) vo in
      (
        s2,
        r2,
        d2,
        v2,
        inner_unit send media u.nal t rounds pos code next_pos (length (start_code u2.long))
              (ok, s, (d, v)) (ok, s', (d', v)) (next ∙ again) unit (sent ∙ ap some kept)
            ∙ done,
        subst (λ au. Gives serves push g s2 true t.ts au v (r2, d2, v2))
            (append_assoc acc (0 ∷ 0 ∷ 0 ∷ 1 ∷ u.nal) (with_codes (u2 ∷ us))) given,
      )

  pub packetize_nals-Delivered :
      (g : Setting) (send : Send (Depayloader × V)) (u : NalUnit) (us : List NalUnit) (pts_ns : ℕ)
      (s : Payloader) (d : Depayloader) (v : V)
      → SendsWell g (pts_to_rtp_ts pts_ns 90000) send
      → AreUnits g.codec (u ∷ us)
      → length (annex_b (u ∷ us)) ≤ 0x7fffffff
      → Expects g s d
      → d.au_active ≡ false
      → Delivered serves push g true
          (pts_to_rtp_ts pts_ns 90000)
          (with_codes (u ∷ us))
          v
          (packetize_nals send (annex_b (u ∷ us)) pts_ns s (d, v))
  packetize_nals-Delivered g send u us pts_ns s d v well a l x n =
      let media = annex_b (u ∷ us) in
      let t : Stamp = record { ts = pts_to_rtp_ts pts_ns 90000; marker = true; pts_ns = pts_ns } in
      let ((_, e, _), _) = a in
      let begins = found_first u us (length-unit u.nal e) in
      let way =
        packetized send media pts_ns s (d, v) 0 (length (start_code u.long))
          (omega (arith, units-le-bytes (u ∷ us))) begins in
      subst (Delivered serves push g true t.ts (with_codes (u ∷ us)) v) (sym way) (
        send_nals-Delivered (length media) g send t well u us media [] [] 0 s d v refl refl
          (omega (arith, units-le-bytes (u ∷ us))) a x (inl (n, refl))
          (omega (arith, length-with_codes (u ∷ us))))
