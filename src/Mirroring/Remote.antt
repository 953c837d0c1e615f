-- ===== src/Mirroring/Remote.antt =====
-- The registry client in the place of the calls that the reconcilers of mirrors make: registry.NewClient(nil,
-- nil).WithPullSecrets(...) in mirrorImage and cleanupMirror.
use kube_image_keeper.Prelude.{List}
use kube_image_keeper.Registry.Client.{Remote, delete_image}
use kube_image_keeper.Registry.Copy.{ImageStore, get_descriptor, copy_image}
use kube_image_keeper.Mirroring.Images.{Kube}

module _ {W K D P M : Type 0} (remote : Remote W K D) (store : ImageStore W K D P M)
    (platforms : List P) where
  -- The other calls are those of the API server and the clock.
  unfoldable pub with_registry : Kube W D → Kube W D
  unfolding get_descriptor copy_image delete_image
  with_registry kube = record kube {
    get_descriptor = λ secrets image. get_descriptor remote store image secrets;
    copy_image = λ d secrets image. copy_image remote store d image platforms secrets;
    delete_image = λ secrets image. delete_image remote image secrets;
  }
