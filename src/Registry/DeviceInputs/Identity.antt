-- ===== src/Registry/DeviceInputs/Identity.antt =====
-- What an update leaves of a device: its kind and its identity.
use master_data.Shared.{
  ◌≡◌, refl, sym, ap, subst, ◌∙◌, ◌≢◌, inl, inr, false, not, ◌&&◌, ◌||◌, Option, none, some, [],
  arith, Bool-cases, ◌==◌, nat_eq, text_eq, ==→eq, Text, text_beq_iff, to_lower, trim_space, Result,
  ok, err,
}
use master_data.Errors.{Error}
use master_data.Models.{tracker_gps, tracker_dashcam, Tracker, tracker_before_write}
use master_data.Normalise.{imei}
use master_data.Registry.DeviceInputs.{
  TrackerInput, apply_tracker, normalise_device, apply_kind, choose_kind, choose_device,
  choose_owner, apply_device, apply_owner, device_of,
}

-- The kind and the id are set, and the id is as the database has it.
abbrev pub Canonical : Tracker → Type 0
Canonical t =
    (t.kind ≢ []) × (t.device_id ≢ []) × (normalise_device t.kind t.device_id ≡ t.device_id)

apply_owner_kept :
    (input : TrackerInput) (t w : Tracker) (r : Result Error Text)
    → apply_owner input t r ≡ ok w
    → (w.kind ≡ t.kind) × (w.device_id ≡ t.device_id)
unfolding apply_owner
apply_owner_kept input t w (err e) h = cc
apply_owner_kept input t w (ok o) h = (
  ap (λ r. elim r [ ok x ↦ x.kind | err e ↦ t.kind ]) (sym h),
  ap (λ r. elim r [ ok x ↦ x.device_id | err e ↦ t.device_id ]) (sym h),
)

choose_kind_kept :
    (kind k : Text) (src : Option Text) → kind ≢ [] → choose_kind false kind src ≡ ok k → k ≡ kind
unfolding choose_kind
choose_kind_kept kind k none n h = cc
choose_kind_kept kind k (some src) n h =
    let k' = to_lower (trim_space src) in
    elim (Bool-cases (k' == tracker_gps || k' == tracker_dashcam)) [
      | inr q ↦ let z = rw q at h in cc
      | inl q ↦
          let z = rw q at h in
          elim (Bool-cases (not (kind == []) && not (kind == k'))) [
            | inl p ↦ let y = rw p at z in cc
            | inr p ↦
                let y = rw p at z in
                let e : kind ≡ k' = ground (arith, text_beq_iff kind [], text_beq_iff kind k', n) in
                cc
          ]
    ]

choose_device_kept :
    (kind device_id d : Text) (src : Option Text)
    → device_id ≢ []
    → normalise_device kind device_id ≡ device_id
    → choose_device false kind device_id src ≡ ok d
    → normalise_device kind d ≡ device_id
unfolding choose_device
choose_device_kept kind device_id d none n c h =
    subst (λ x. normalise_device kind x ≡ device_id)
      (ap (λ r. elim r [ ok x ↦ x | err e ↦ device_id ]) h) c
choose_device_kept kind device_id d (some src) n c h =
    let v = trim_space src in
    elim (Bool-cases (not (device_id == []) && not (normalise_device kind v == device_id))) [
      | inl p ↦ let y = rw p at h in cc
      | inr p ↦
          let y = rw p at h in
          let e : normalise_device kind v ≡ device_id = ground (
            arith,
            text_beq_iff device_id [],
            text_beq_iff (normalise_device kind v) device_id,
            n,
          ) in
          subst (λ x. normalise_device kind x ≡ device_id)
            (ap (λ r. elim r [ ok x ↦ x | err e ↦ v ]) y) e
    ]

apply_device_kept :
    (input : TrackerInput) (t w : Tracker) (r : Result Error Text) (id : Text)
    → ((d : Text) → r ≡ ok d → normalise_device t.kind d ≡ id)
    → apply_device input t r ≡ ok w
    → (w.kind ≡ t.kind) × (normalise_device t.kind w.device_id ≡ id)
unfolding apply_device
apply_device_kept input t w (err e) id f h = cc
apply_device_kept input t w (ok d) id f h =
    let (k, e) =
      apply_owner_kept input (record t { device_id = d }) w (choose_owner t.owner input.owner) h in
    (k, subst (λ x. normalise_device t.kind x ≡ id) (sym e) (f d refl))

apply_kind_kept :
    (input : TrackerInput) (t w : Tracker) (r : Result Error Text)
    → Canonical t
    → ((k : Text) → r ≡ ok k → k ≡ t.kind)
    → apply_kind false input t r ≡ ok w
    → (w.kind ≡ t.kind) × (normalise_device t.kind w.device_id ≡ t.device_id)
unfolding apply_kind
apply_kind_kept input t w (err e) c f h = cc
apply_kind_kept input t w (ok k) (_, n, c) f h =
    let e = f k refl in
    let h' = rw e at h in
    apply_device_kept input t w (choose_device false t.kind t.device_id (device_of input))
      t.device_id (λ d q. choose_device_kept t.kind t.device_id d (device_of input) n c q) h'

nonempty_false : (s : Text) → s ≢ [] → (s == []) ≡ false
nonempty_false s n = ground (arith, text_beq_iff s [])

-- Writing normalises the id by the kind.
written_identity :
    (w : Tracker)
    → w.kind ≢ []
    → normalise_device w.kind w.device_id ≢ []
    → ((tracker_before_write w).kind ≡ w.kind)
      × ((tracker_before_write w).device_id ≡ normalise_device w.kind w.device_id)
unfolding tracker_before_write normalise_device imei
written_identity w n i =
    let k = nonempty_false w.kind n in
    elim (Bool-cases (w.kind == tracker_gps)) [
      | inl q ↦ elim (Bool-cases (w.device_id == [])) [
        | inl p ↦ absurd (i (rw (q, ==→eq w.device_id [] p) refl))
        | inr p ↦ (rw (k, q) refl, rw (k, q, p) refl)
      ]
      | inr q ↦ (rw (k, q) refl, rw (k, q) refl)
    ]

-- An update never changes what a device is: whatever the input, what is written has the kind and
-- the id of the stored device, if that device has both and its id is in canonical form.
pub apply_tracker_identity :
    (input : TrackerInput) (t w : Tracker)
    → Canonical t
    → apply_tracker input false t ≡ ok w
    → ((tracker_before_write w).kind ≡ t.kind) × ((tracker_before_write w).device_id ≡ t.device_id)
unfolding apply_tracker
apply_tracker_identity input t w (n, i, c) h =
    let (k, d) =
      apply_kind_kept input t w (choose_kind false t.kind input.kind) (n, i, c)
        (λ k q. choose_kind_kept t.kind k input.kind n q) h in
    let (a, b) =
      written_identity w (λ e. n (sym k ∙ e))
        (λ e. i (sym d ∙ (sym (ap (λ x. normalise_device x w.device_id) k) ∙ e))) in
    (a ∙ k, b ∙ (ap (λ x. normalise_device x w.device_id) k ∙ d))
