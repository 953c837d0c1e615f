-- ===== src/Mirroring/Present.antt =====
-- An image is recorded as mirrored only where its registry has it.
use kube_image_keeper.Prelude.{◌≡◌, true, List, is_some, All}
use kube_image_keeper.Text.{Text}
use kube_image_keeper.Pods.{StringMap, Pod}
use kube_image_keeper.Resources.{Mirror, MirrorStatus, MatchingImage}
use kube_image_keeper.Registry.Client.{Reference, Remote}
use kube_image_keeper.Registry.Platforms.{Source}
use kube_image_keeper.Registry.Copy.{ImageStore}
use kube_image_keeper.Registry.Present.{IsPresent, KeepsImages}
use kube_image_keeper.Mirroring.Images.{Kube}
use kube_image_keeper.Mirroring.Remote.{with_registry}
use kube_image_keeper.Mirroring.Taken.{ApiKeeps}

module _ {W K D P M : Type 0} (remote : Remote W K D) (store : ImageStore W K D P M)
    (platforms : List P) (Describes : D → Reference → Type 0)
    (Content : Source P M → Reference → Type 0) (Holds : W → Reference → Reference → Type 0)
    (Answers : W → Reference → Type 0)
    (laws : KeepsImages remote store platforms Describes Content Holds Answers)
    (api : Kube W D) where
  abbrev pub kube : Kube W D
  kube = with_registry remote store platforms api

  -- The registry of the image has it, as a manifest of the source or as one that it answers with.
  abbrev pub Has : Text → Text → W → Type 0
  Has source image = IsPresent remote store platforms Describes Content Holds Answers source image

  module _ (keeps : ApiKeeps remote store platforms Describes Content Holds Answers laws api) where
    -- A mirror of the source that is recorded as mirrored is in its registry.
    abbrev pub IsGenuine : Text → W → MirrorStatus → Type 0
    IsGenuine source w m = is_some m.mirrored_at ≡ true → Has source m.image w

    module _ (namespace : Text) (mirrors : List Mirror) (pods : StringMap Pod) where
      -- Each mirror of the image that is recorded as mirrored is in its registry.
      abbrev pub Truthful : W → MatchingImage → Type 0
      Truthful w i = All (IsGenuine i.image w) i.mirrors
