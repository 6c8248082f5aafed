-- ===== src/Lifecycle/Devices/Laws.antt =====
-- The first device of a udid.
use mathlib.Core.List.{append_assoc}
use simgadget.Prelude.{
  ◌≡◌, refl, sym, ◌∙◌, Bool, false, List, [], ◌∷◌, ◌++◌, none, some, find, All, ap,
}
use simgadget.Prelude.Text.{Text, text, text_eq, text_eq_refl}
use simgadget.Ax.Element.{str}
use simgadget.Lifecycle.Devices.{
  SimInfo, Device, Bucket, no_array, array, entries, parsed_device, parsed_bucket, parsed_entries,
  parse_devices, find_device, string_or,
}

-- No device of the bucket has this udid.
abbrev Lacks : Text → List SimInfo → Type 0
Lacks udid = All (λ d. text_eq d.udid udid ≡ false)

find-skip :
    (udid : Text) (xs ys : List SimInfo)
    → Lacks udid xs
    → find (λ d. text_eq d.udid udid) (xs ++ ys) ≡ find (λ d. text_eq d.udid udid) ys
find-skip udid [] ys h = refl
find-skip udid (x ∷ xs) ys (other, h) = rw other (find-skip udid xs ys h)

find-none :
    (udid : Text) (xs : List SimInfo) → Lacks udid xs → find (λ d. text_eq d.udid udid) xs ≡ none
find-none udid [] h = refl
find-none udid (x ∷ xs) (other, h) = rw other (find-none udid xs h)

parsed_bucket-append :
    (runtime : Text) (xs ys : List Device)
    → parsed_bucket runtime (xs ++ ys) ≡ parsed_bucket runtime xs ++ parsed_bucket runtime ys
parsed_bucket-append runtime [] ys = refl
parsed_bucket-append runtime (x ∷ xs) ys =
    ap (λ ds. parsed_device runtime x ++ ds) (parsed_bucket-append runtime xs ys)
    ∙ sym (
        append_assoc (parsed_device runtime x) (parsed_bucket runtime xs)
          (parsed_bucket runtime ys))

parsed_entries-append :
    (xs ys : List (Text × Bucket))
    → parsed_entries (xs ++ ys) ≡ parsed_entries xs ++ parsed_entries ys
parsed_entries-append [] ys = refl
parsed_entries-append ((runtime, no_array) ∷ xs) ys = parsed_entries-append xs ys
parsed_entries-append ((runtime, array devices) ∷ xs) ys =
    ap (λ ds. parsed_bucket runtime devices ++ ds) (parsed_entries-append xs ys)
    ∙ sym (append_assoc (parsed_bucket runtime devices) (parsed_entries xs) (parsed_entries ys))

abbrev has_udid : Text → SimInfo → Bool
has_udid udid d = text_eq d.udid udid

-- The devices that stand before a runtime's bucket do not have the udid, nor do those before the
-- device in its bucket: then the device that is found has this runtime, and its own name, state and
-- type where they are texts. If no device has the udid, none is found.
find_device-first :
    (before after : List (Text × Bucket)) (runtime udid : Text) (left right : List Device)
    (device : Device)
    → device.udid ≡ str udid
    → Lacks udid (parsed_entries before)
    → Lacks udid (parsed_bucket runtime left)
    → (find_device (entries (before ++ (runtime, array (left ++ device ∷ right)) ∷ after)) udid
        ≡ some (record {
          udid = udid;
          name = string_or [] device.name;
          state = string_or (text "Shutdown") device.state;
          device_type_identifier = string_or [] device.device_type_identifier;
          runtime_identifier = runtime;
        }))
      × (find_device (entries before) udid ≡ none)
unfolding find_device parse_devices
find_device-first before after runtime udid left right device is_udid none_before none_left = (
  ap (find (has_udid udid)) (parsed_entries-append before _)
      ∙ find-skip udid (parsed_entries before) _ none_before
      ∙ ap (λ ds. find (has_udid udid) (ds ++ parsed_entries after))
          (parsed_bucket-append runtime left (device ∷ right))
      ∙ ap (find (has_udid udid))
          (append_assoc (parsed_bucket runtime left) (parsed_bucket runtime (device ∷ right)) _)
      ∙ find-skip udid (parsed_bucket runtime left) _ none_left
      ∙ rw is_udid (rw (text_eq_refl udid) refl),
  find-none udid (parsed_entries before) none_before,
)
