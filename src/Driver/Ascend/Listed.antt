-- ===== src/Driver/Ascend/Listed.antt =====
-- src/device/ascend.rs, `discover`: the devices that are found.
use xlurm.Base.{
  ℕ, suc, ◌≤◌, ◌≡◌, refl, ap, ◌∙◌, subst, inl, inr, Option, List, [], ◌∷◌, map, arith, leb,
  Bool-cases, nat_eq, option_eq, Text, text_eq, length, All, context, >>=-ok, ok, int_eq, natural,
  ℤ, pos, negsuc,
}
use xlurm.Model.{kind_eq, state_eq, Device, ascend}
use xlurm.Model.Errors.{invalid_chip_name, invalid_logical_id}
use xlurm.Driver.{range}
use xlurm.Driver.Calls.{check-ok}
use xlurm.Driver.Reading.{ensure-pure}
use xlurm.Driver.Found.{length-range, length-map, listing-Found, Found}
use xlurm.Driver.Ascend.{
  insert_by_id, sort_by_id, chip_name, device_total, api_device, api_discover, card_ids,
  legacy_device, legacy_discover, discover, Api, Legacy, Dcmi, api, legacy,
}

module _ (P : Device → Type 0) where
  insert_by_id-All : (d : Device) (ds : List Device) → P d → All P ds → All P (insert_by_id d ds)
  unfolding insert_by_id
  insert_by_id-All d [] p h = (p, tt)
  insert_by_id-All d (e ∷ ds) p (q, h) = elim (Bool-cases (leb d.id e.id)) [
    | inl y ↦ rw y (p, (q, h))
    | inr n ↦ rw n (q, insert_by_id-All d ds p h)
  ]

  sort_by_id-All : (ds : List Device) → All P ds → All P (sort_by_id ds)
  unfolding sort_by_id
  sort_by_id-All [] h = tt
  sort_by_id-All (d ∷ ds) (p, h) = insert_by_id-All d (sort_by_id ds) p (sort_by_id-All ds h)

length-insert_by_id : (d : Device) (ds : List Device) → length (insert_by_id d ds) ≡ suc (length ds)
unfolding insert_by_id
length-insert_by_id d [] = refl
length-insert_by_id d (e ∷ ds) = elim (Bool-cases (leb d.id e.id)) [
  | inl y ↦ rw y refl
  | inr n ↦ rw n (ap suc (length-insert_by_id d ds))
]

length-sort_by_id : (ds : List Device) → length (sort_by_id ds) ≡ length ds
unfolding sort_by_id
length-sort_by_id [] = refl
length-sort_by_id (d ∷ ds) = length-insert_by_id d (sort_by_id ds) ∙ ap suc (length-sort_by_id ds)

module _ {W : Type 0} where
  device_total-bounds : (count : ℤ) (w : W) (n : ℕ) → (device_total count w).0 ≡ ok n → n ≤ 64
  unfolding device_total
  device_total-bounds (negsuc m) w n e = absurd (cc)
  device_total-bounds (pos m) w n e =
      let (t, same) = ensure-pure _ _ m w e in ground (arith, t, same)

  listed-few :
      (found : ℕ → ℤ) (count : ℤ) (w : W) (n : ℕ)
      → (device_total count w).0 ≡ ok n
      → length (map found (range 0 n)) ≤ 64
  listed-few found count w n e =
      rw (length-map found (range 0 n), length-range 0 n) (device_total-bounds count w n e)

module _ {W : Type 0} (driver : Api W) (utf8 : List ℕ → Option Text) where
  api_device-kind :
      (logical : ℤ) (w : W) (d : Device)
      → (api_device driver utf8 logical w).0 ≡ ok d
      → d.kind ≡ ascend
  unfolding api_device
  api_device-kind logical w d e =
      let (id, c, e1) = >>=-ok (context (natural logical) (invalid_logical_id logical)) _ w e in
      let (bytes, called, e2) = check-ok (driver.chip_info logical) _ _ _ e1 in
      let (name, u, e3) = >>=-ok (context (utf8 (chip_name bytes)) invalid_chip_name) _ _ e2 in
      ground (arith, e3)

  api_discover-Found :
      (w : W) (devices : List Device)
      → (api_discover driver utf8 w).0 ≡ ok devices
      → Found ascend devices
  unfolding api_discover
  api_discover-Found w devices e =
      let ((count, found), called, e1) = check-ok (driver.device_list 64) _ _ w e in
      let (n, t, e2) = >>=-ok (device_total count) _ _ e1 in
      listing-Found ascend (api_device driver utf8) api_device-kind sort_by_id length-sort_by_id
        (sort_by_id-All (λ (d : Device). d.kind ≡ ascend)) (map found (range 0 n)) _ devices
        (listed-few found count _ n t) e2

module _ {W : Type 0} (driver : Legacy W) (utf8 : List ℕ → Option Text) where
  legacy_device-kind :
      (slot : ℤ) (w : W) (d : Device)
      → (legacy_device driver utf8 slot w).0 ≡ ok d
      → d.kind ≡ ascend
  unfolding legacy_device
  legacy_device-kind slot w d e =
      let (count, counted, e1) = check-ok (driver.device_count slot) _ _ w e in
      let (n, t, e2) = >>=-ok (device_total count) _ _ e1 in
      let (bytes, called, e3) = check-ok (driver.chip slot (pos 0)) _ _ _ e2 in
      let (name, u, e4) = >>=-ok (context (utf8 (chip_name bytes)) invalid_chip_name) _ _ e3 in
      ground (arith, e4)

  legacy_discover-Found :
      (w : W) (devices : List Device)
      → (legacy_discover driver utf8 w).0 ≡ ok devices
      → Found ascend devices
  unfolding legacy_discover card_ids
  legacy_discover-Found w devices e =
      let (slots, listed, e1) = >>=-ok (card_ids driver utf8) _ w e in
      let ((count, found), called, l1) = check-ok (driver.cards 64) _ _ w listed in
      let (n, t, l2) = >>=-ok (device_total count) _ _ l1 in
      listing-Found ascend (legacy_device driver utf8) legacy_device-kind (λ ds. ds) (λ ds. refl)
        (λ ds h. h) slots _ devices
        (let same : map found (range 0 n) ≡ slots = ground (arith, l2) in
          subst (λ xs. length xs ≤ 64) same (listed-few found count _ n t))
        e1

module _ {W : Type 0} (utf8 : List ℕ → Option Text) where
  pub discover-Found :
      (driver : Dcmi W) (w : W) (devices : List Device)
      → (discover utf8 driver w).0 ≡ ok devices
      → Found ascend devices
  unfolding discover
  discover-Found (api driver) w devices e = api_discover-Found driver utf8 w devices e
  discover-Found (legacy driver) w devices e = legacy_discover-Found driver utf8 w devices e
