-- ===== src/Capture/Grabs.antt =====
-- internal/input/all_devices_capture.go: which devices are grabbed after SetTarget and the timer.
use waymon.Common.{
  if_elim, ℕ, suc, ◌+◌, ◌≡◌, refl, String, Bool, true, false, ◌&&◌, ◌==◌, none, some, List, [], ◌∷◌,
  if◌then◌else◌, str_eq, arith, length, ◌∙◌,
}
use waymon.Capture.State.{Evdev, DeviceHandler, AllDevicesCapture, set_grabbed}
use waymon.Capture.Target.{
  release_devices, grab_devices, force_release, clear_target, grab_target, set_target, expire,
}

-- How many devices are marked as grabbed.
unfoldable pub grabbed_count : List DeviceHandler → ℕ
grabbed_count [] = 0
grabbed_count (d ∷ ds) = let rest = grabbed_count ds in if d.grabbed then suc rest else rest

-- Each device with the mark that stands beside it.
unfoldable pub marked : List DeviceHandler → List Bool → List DeviceHandler
marked [] bs = []
marked (d ∷ ds) [] = d ∷ ds
marked (d ∷ ds) (b ∷ bs) = set_grabbed b d ∷ marked ds bs

unfoldable pub all_true : List Bool → Bool
all_true [] = true
all_true (b ∷ bs) = b && all_true bs

-- The paths of the devices that are marked as grabbed.
unfoldable pub grabbed_paths : List DeviceHandler → List String
grabbed_paths [] = []
grabbed_paths (d ∷ ds) = let rest = grabbed_paths ds in if d.grabbed then d.path ∷ rest else rest

-- The paths of the others.
unfoldable pub free_paths : List DeviceHandler → List String
free_paths [] = []
free_paths (d ∷ ds) = let rest = free_paths ds in if d.grabbed then rest else d.path ∷ rest

unfoldable pub unmarked : List DeviceHandler → List DeviceHandler
unmarked [] = []
unmarked (d ∷ ds) = set_grabbed false d ∷ unmarked ds

module _ (E : Evdev) where
  -- What the kernel answers for each device: one that is held already needs no `Grab`, and the
  -- others are asked in turn, whatever the ones before have answered.
  unfoldable pub answers : List DeviceHandler → E.Kernel → List Bool
  answers [] k = []
  answers (d ∷ ds) k =
      let held = answers ds k in
      let asked = answers ds (E.grab d.path k).0 in
      if d.grabbed then true ∷ held else (E.grab d.path k).1 ∷ asked

  -- The kernel after a `Release` of each path.
  unfoldable pub released : List String → E.Kernel → E.Kernel
  released [] k = k
  released (path ∷ paths) k = released paths (E.release path k).0

  -- The kernel after a `Grab` of each path.
  unfoldable pub grabbed : List String → E.Kernel → E.Kernel
  grabbed [] k = k
  grabbed (path ∷ paths) k = grabbed paths (E.grab path k).0

  grab_devices-grabbed :
      (ds : List DeviceHandler) (k : E.Kernel) → (grab_devices E ds k).1 ≡ grabbed (free_paths ds) k
  unfolding grab_devices grabbed free_paths
  grab_devices-grabbed [] k = refl
  grab_devices-grabbed (d ∷ ds) k =
      ground (arith, grab_devices-grabbed ds k, grab_devices-grabbed ds (E.grab d.path k).0)

  grab_devices-marked :
      (ds : List DeviceHandler) (k : E.Kernel) → (grab_devices E ds k).0 ≡ marked ds (answers ds k)
  unfolding grab_devices marked answers
  grab_devices-marked [] k = refl
  grab_devices-marked (d ∷ ds) k =
      ground (arith, grab_devices-marked ds k, grab_devices-marked ds (E.grab d.path k).0)

  all_true-answers :
      (ds : List DeviceHandler) (k : E.Kernel)
      → all_true (answers ds k) ≡ ((grab_devices E ds k).2 == 0)
  unfolding grab_devices all_true answers
  all_true-answers [] k = refl
  all_true-answers (d ∷ ds) k =
      ground (arith, all_true-answers ds k, all_true-answers ds (E.grab d.path k).0)

  force_release-unmarked :
      (ds : List DeviceHandler) (k : E.Kernel)
      → ((force_release E ds k).0 ≡ unmarked ds)
        × ((force_release E ds k).1 ≡ released (grabbed_paths ds) k)
  unfolding force_release unmarked released grabbed_paths
  force_release-unmarked [] k = (refl, refl)
  force_release-unmarked (d ∷ ds) k =
      ground (arith, force_release-unmarked ds k, force_release-unmarked ds (E.release d.path k).0)

  grab_devices_count :
      (ds : List DeviceHandler) (k : E.Kernel)
      → grabbed_count (grab_devices E ds k).0 + (grab_devices E ds k).2 ≡ length ds
  unfolding grab_devices grabbed_count
  grab_devices_count [] k = refl
  grab_devices_count (d ∷ ds) k =
      ground (arith, grab_devices_count ds k, grab_devices_count ds (E.grab d.path k).0)

  -- Every device can be released.
  abbrev pub Releases : Type 0
  Releases = (path : String) (k : E.Kernel) → (E.release path k).1 ≡ true

  release_devices_count :
      Releases
      → (ds : List DeviceHandler) (k : E.Kernel) → grabbed_count (release_devices E ds k).0 ≡ 0
  unfolding release_devices grabbed_count
  release_devices_count r [] k = refl
  release_devices_count r (d ∷ ds) k = ground (
    arith,
    r d.path k,
    release_devices_count r ds k,
    release_devices_count r ds (E.release d.path k).0,
  )

module _ {E : Evdev} where
  -- What holds after a client has become the target, and after it has been refused.
  abbrev pub IsTargeted : ℕ → String → AllDevicesCapture E → AllDevicesCapture E × Bool → Type 0
  IsTargeted now client_id a (b, true) =
      (b.current_target ≡ client_id)
      × (all_true (answers E a.devices a.kernel) ≡ true)
      × (b.devices ≡ marked a.devices (answers E a.devices a.kernel))
      × (b.kernel ≡ grabbed E (free_paths a.devices) a.kernel)
      × (grabbed_count b.devices ≡ length a.devices)
      × (b.armed ≡ (a.next_timer, now + a.grab_timeout) ∷ a.armed)
      × (b.grab_timer ≡ some a.next_timer)
  IsTargeted now client_id a (b, false) =
      (b.current_target ≡ a.current_target)
      × (all_true (answers E a.devices a.kernel) ≡ false)
      × (b.devices ≡ marked a.devices (answers E a.devices a.kernel))
      × (b.kernel ≡ grabbed E (free_paths a.devices) a.kernel)
      × (b.armed ≡ a.armed)
      × (b.grab_timer ≡ a.grab_timer)

  -- Where devices are grabbed, `set_target` of a client calls `Grab` on each device that is not held
  -- yet, also after one that refuses. It either succeeds, where no device refuses:
  -- then the client is the target, every device is grabbed and a new timer runs beside those that
  -- ran before. Or it fails, where one refuses: then the target and the timers are the old ones, but
  -- each device that was held before or has not refused is marked as grabbed, and each that has
  -- refused is not.
  pub set_target-IsTargeted :
      (now : ℕ) (client_id : String) (a : AllDevicesCapture E)
      → str_eq client_id "" ≡ false
      → a.no_grab ≡ false
      → IsTargeted now client_id a (set_target now client_id a)
  unfolding set_target grab_target
  set_target-IsTargeted now client_id a c n =
      let count = grab_devices_count E a.devices a.kernel in
      let unanimous = all_true-answers E a.devices a.kernel in
      let devices = grab_devices-marked E a.devices a.kernel in
      let kernel = grab_devices-grabbed E a.devices a.kernel in
      if_elim (λ (r : AllDevicesCapture E × Bool). IsTargeted now client_id a r)
        (str_eq client_id "") (λ e. absurd (ground (arith, e, c)))
        (λ _.
          if_elim (λ (r : AllDevicesCapture E × Bool). IsTargeted now client_id a r) a.no_grab
            (λ e. absurd (ground (arith, e, n)))
            (λ _.
              if_elim (λ (r : AllDevicesCapture E × Bool). IsTargeted now client_id a r)
                ((grab_devices E a.devices a.kernel).2 == 0)
                (λ z. (refl, unanimous ∙ z, devices, kernel, ground (arith, z, count), refl, refl))
                (λ z. (refl, unanimous ∙ z, devices, kernel, refl, refl))))

  -- After the function of any timer has run while a client is the target, the local system is the
  -- target, `Release` has been called on each device that was marked as grabbed and on no other,
  -- and none is marked any more, also where `Release` fails.
  pub expire_releases :
      (id : ℕ) (a : AllDevicesCapture E)
      → str_eq a.current_target "" ≡ false
      → ((expire id a).current_target ≡ "")
        × ((expire id a).kernel ≡ released E (grabbed_paths a.devices) a.kernel)
        × ((expire id a).devices ≡ unmarked a.devices)
  unfolding expire
  expire_releases id a h =
      let (devices, kernel) = force_release-unmarked E a.devices a.kernel in
      ground (arith, h, devices, kernel)

  no_timer : (a : AllDevicesCapture E) → (clear_target a).grab_timer ≡ none
  unfolding clear_target
  no_timer a = ground arith

  -- Where releases succeed, `set_target` of the local system leaves no device grabbed and no
  -- `grab_timer`, whatever was grabbed before.
  pub clear_target_releases :
      Releases E
      → (now : ℕ) (a : AllDevicesCapture E)
      → ((set_target now "" a).1 ≡ true)
        × ((set_target now "" a).0.current_target ≡ "")
        × (grabbed_count (set_target now "" a).0.devices ≡ 0)
        × ((set_target now "" a).0.grab_timer ≡ none)
  unfolding set_target clear_target
  clear_target_releases r now a =
      (refl, refl, release_devices_count E r a.devices a.kernel, no_timer a)
