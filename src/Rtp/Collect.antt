-- ===== src/Rtp/Collect.antt =====
-- What appends and the marker do to the access unit of a depayloader that has lost nothing, where every
-- allocation is served. `V` is the state behind it.
use zstreamer.Common.{
  ℕ, suc, ◌+◌, ◌^◌, ◌<◌, ◌≡◌, refl, ap, sym, subst, Bool, true, false, some, List, [], ◌∷◌, ◌++◌,
  length, length-append, arith,
}
use mathlib.Core.List.{append_assoc, append-nil}
use native.Mathlib.Decide.{dec_lt}
use zstreamer.Types.{ZstResult, ok, add64}
use zstreamer.Rtp.{Downstream, Frame, ts_to_pts}
use zstreamer.Rtp.Payloader.{Payloader}
use zstreamer.Rtp.Depayloader.{
  Depayloader, grown, reserve_au, append_au, append_unit, push_bytes, push_au, finish,
}
use zstreamer.Rtp.Expects.{Setting, Expects, Collects}

module _ {V : Type 0} (serves : ℕ → Bool) (push : Downstream Frame V) where
  -- Appends to the access unit are served, as long as its length is far from 2^64.
  module _ (served : (n : ℕ) → serves n ≡ true) where
    reserved :
        (d : Depayloader) (n : ℕ)
        → length d.au_data + n < 2 ^ 63
        → (cap : ℕ) × (reserve_au serves d n ≡ some (record d { au_cap = cap }))
    unfolding reserve_au
    reserved d n h = elim (dec_lt d.au_cap (length d.au_data + n)) [
      | yes l ↦
          (grown (length d.au_data + n), ground (arith, served (grown (length d.au_data + n))))
      | no l ↦ (d.au_cap, ground arith)
    ]

    appended :
        (d : Depayloader) (bs : List ℕ)
        → length d.au_data + length bs < 2 ^ 63
        → (cap : ℕ) × (append_au serves d bs
            ≡ some (record d { au_data = d.au_data ++ bs; au_cap = cap }))
    unfolding append_au
    appended d [] h =
        (d.au_cap, ap (λ b. some (record d { au_data = b })) (sym (append-nil d.au_data)))
    appended d (b ∷ bs) h =
        let (cap, e) = reserved d (suc (length bs)) h in (cap, ground (arith, e))

    pub append_au-Collects :
        (g : Setting) (s : Payloader) (d : Depayloader) (ts : ℕ) (au bs : List ℕ)
        → Expects g s d
        → Collects d ts au
        → length au + length bs < 2 ^ 63
        → (d' : Depayloader) × (append_au serves d bs ≡ some d')
          × Expects g s d'
          × Collects d' ts (au ++ bs)
    append_au-Collects g s d ts au bs x k h =
        let (cap, e) = appended d bs (ground arith) in
        (record d { au_data = d.au_data ++ bs; au_cap = cap }, e, ground arith, ground arith)

    pub append_unit-Collects :
        (g : Setting) (s : Payloader) (d : Depayloader) (ts : ℕ) (au nal : List ℕ)
        → Expects g s d
        → Collects d ts au
        → length au + length nal + 4 < 2 ^ 63
        → (d' : Depayloader) × (append_unit serves d nal ≡ some d')
          × Expects g s d'
          × Collects d' ts (au ++ (0 ∷ 0 ∷ 0 ∷ 1 ∷ nal))
    unfolding append_unit
    append_unit-Collects g s d ts au nal x k h =
        let code : List ℕ = 0 ∷ 0 ∷ 0 ∷ 1 ∷ [] in
        let (d1, e1, x1, k1) = append_au-Collects g s d ts au code x k (omega arith) in
        let (d2, e2, x2, k2) =
          append_au-Collects g s d1 ts (au ++ code) nal x1 k1
            (omega (arith, length-append au code)) in
        (d2, ground (arith, e1, e2), x2, subst (Collects d2 ts) (append_assoc au code nal) k2)

  -- What a packet has done to the access unit: it is open with these bytes, or, by the marker, it has
  -- been pushed as one frame and nothing is open.
  abbrev pub frame_of : Setting → ℕ → List ℕ → Frame
  frame_of g ts au = record {
    content = au;
    pts = ts_to_pts ts g.rate;
    duration = 0;
    discontinuity = false;
  }

  abbrev pub Ended : Setting → Bool → Depayloader → ℕ → List ℕ → V → ZstResult → V → Type 0
  Ended g false d ts au v r v' = (r ≡ ok) × (v' ≡ v) × Collects d ts au
  Ended g true d ts au v r v' =
      (r ≡ (push (frame_of g ts au) v).0)
      × (v' ≡ (push (frame_of g ts au) v).1)
      × (d.au_active ≡ false)

  -- The state from which an access unit has been taken.
  abbrev taken : Depayloader → Depayloader
  taken d = record d {
    au_data = [];
    au_cap = 0;
    au_active = false;
    h264_discontinuity_pending = false;
    out_buffers = add64 d.out_buffers 1;
    out_bytes = add64 d.out_bytes (length d.au_data);
  }

  push_au-taken :
      (d : Depayloader) (v : V) (fr : Frame)
      → d.au_active ≡ true
      → 0 < length d.au_data
      → d.linked ≡ true
      → d.h264_discontinuity_pending ≡ false
      → fr ≡ record { content = d.au_data; pts = d.au_pts; duration = 0; discontinuity = false }
      → push_au push d v ≡ ((push fr v).0, taken d, (push fr v).1)
  unfolding push_au push_bytes
  push_au-taken d v fr a h l u e = ground (arith, a, l, u, e)

  framed :
      (g : Setting) (s : Payloader) (d : Depayloader) (ts : ℕ) (au : List ℕ)
      → Expects g s d
      → Collects d ts au
      → frame_of g ts au
        ≡ record { content = d.au_data; pts = d.au_pts; duration = 0; discontinuity = false }
  framed g s d ts au x k = ground arith

  pub finish-Ended :
      (g : Setting) (s : Payloader) (begun d : Depayloader) (ts : ℕ) (au : List ℕ) (marker : Bool)
      (v : V)
      → Expects g s d
      → Collects d ts au
      → 0 < length au
      → let r = finish push begun (some d) marker v in
        Expects g s r.1 × Ended g marker r.1 ts au v r.0 r.2
  unfolding finish
  finish-Ended g s begun d ts au true v x k h =
      let e =
        push_au-taken d v (frame_of g ts au) k.active (ground arith) x.pushes x.undisturbed
          (framed g s d ts au x k) in
      subst (λ r. Expects g s r.1 × Ended g true r.1 ts au v r.0 r.2) (sym e)
        (ground arith, (refl, refl, refl))
  finish-Ended g s begun d ts au false v x k h = (x, (refl, refl, k))
