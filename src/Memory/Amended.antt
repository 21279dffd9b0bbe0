-- ===== src/Memory/Amended.antt =====
-- What a reading of memory gives after the write of the exempt field, and the spec of an object that
-- was read: WXOneCluster and WXOneMachine.
use capi_wx_one.Base.{Option, none, some, ◌≡◌, refl, sym, ap, ◌∙◌, String}
use capi_wx_one.Api.{
  Network, LocalSecretReference, ObjectMeta, WxOneMachineStatus, WxOneCluster, WxOneClusterSpec,
  WxOneMachine, WxOneMachineSpec,
}
use capi_wx_one.Memory.Heap.{Heap, and_then}
use capi_wx_one.Memory.Contents.{Cell}
use capi_wx_one.Memory.Slots
use capi_wx_one.Memory.Copying.{read_pointer}
use capi_wx_one.Memory.Layout.{ClusterSpecMem, MachineSpecMem, ClusterMem, MachineMem}
use capi_wx_one.Memory.Readings.{
  Typed, read_object_meta, read_network, read_cluster_spec, read_cluster, read_machine_spec,
  read_machine_status, read_machine,
}
use capi_wx_one.Memory.Admission.{set_endpoint, set_provider}
use capi_wx_one.Webhook.Validators.{with_endpoint_of, with_provider_of}

module _ {A B V W : Type 0} (f : A → B → V) (g : V → W) where
  abbrev pub parts : (X : Type 0) → (V → X) → Option A → Option B → Option X
  parts X k first second = and_then first (λ a. and_then second (λ b. some (k (f a b))))

  -- What is made of a value that was read.
  read_made :
      (first : Option A) (second : Option B) (v : V)
      → parts V (λ v. v) first second ≡ some v
      → parts W g first second ≡ some (g v)
  read_made none second v h = cc
  read_made (some a) none v h = cc
  read_made (some a) (some b) v h = let e : f a b ≡ v = cc h in ap some (ap g e)

  -- What does not depend on the parts.
  read_fixed :
      (first : Option A) (second : Option B) (v : V) (w : W)
      → parts V (λ v. v) first second ≡ some v
      → ((a : A) (b : B) → g (f a b) ≡ w)
      → w ≡ g v
  read_fixed none second v w h law = cc
  read_fixed (some a) none v w h law = cc
  read_fixed (some a) (some b) v w h law = let e : f a b ≡ v = cc h in sym (law a b) ∙ ap g e

  -- What depends on the second part only.
  pub read_second :
      (first : Option A) (second : Option B) (v : V) (q : B → W)
      → parts V (λ v. v) first second ≡ some v
      → ((a : A) (b : B) → g (f a b) ≡ q b)
      → and_then second (λ b. some (q b)) ≡ some (g v)
  read_second none second v q h law = cc
  read_second (some a) none v q h law = cc
  read_second (some a) (some b) v q h law =
      let e : f a b ≡ v = cc h in ap some (sym (law a b) ∙ ap g e)

pub some_id : {A : Type 0} (o : Option A) → and_then o (λ a. some a) ≡ o
some_id none = refl
some_id (some a) = refl

abbrev built : ClusterSpecMem → Network → Option LocalSecretReference → WxOneClusterSpec
built x a b = record {
  project = x.project;
  availability_zone = x.availability_zone;
  network = a;
  ssh_key = x.ssh_key;
  control_plane_endpoint = x.control_plane_endpoint;
  credentials_secret_ref = b;
}

pub read_set_endpoint :
    (x y : ClusterSpecMem) (k : Heap Cell) (n o : WxOneClusterSpec)
    → read_cluster_spec x k ≡ some n
    → read_cluster_spec y k ≡ some o
    → read_cluster_spec (set_endpoint x y) k ≡ some (with_endpoint_of o n)
read_set_endpoint x y k n o h h' =
    let network = read_network x.network k in
    let ref = read_pointer Slots.local_secret_reference x.credentials_secret_ref k in
    let same : y.control_plane_endpoint ≡ o.control_plane_endpoint =
      read_fixed (built y) (λ v. v.control_plane_endpoint) (read_network y.network k)
        (read_pointer Slots.local_secret_reference y.credentials_secret_ref k) o
        y.control_plane_endpoint h' (λ a b. refl) in
    read_made (built x) (λ v. record v { control_plane_endpoint = y.control_plane_endpoint })
      network ref n h
    ∙ ap (λ e. some (record n { control_plane_endpoint = e })) same

provider_lem :
    (x y : MachineSpecMem) (id id' : Option (Option String)) (n o : WxOneMachineSpec)
    → and_then id (λ i. some (record { flavor = x.flavor; image = x.image; provider_id = i }))
      ≡ some n
    → and_then id' (λ i. some (record { flavor = y.flavor; image = y.image; provider_id = i }))
      ≡ some o
    → and_then id' (λ i. some (record { flavor = x.flavor; image = x.image; provider_id = i }))
      ≡ some (with_provider_of o n)
provider_lem x y none id' n o h h' = cc
provider_lem x y (some i) none n o h h' = cc
provider_lem x y (some i) (some i') n o h h' =
    let e : record { flavor = x.flavor; image = x.image; provider_id = i } ≡ n = cc h in
    let e' : record { flavor = y.flavor; image = y.image; provider_id = i' } ≡ o = cc h' in
    ap some (
      ap (λ (v : WxOneMachineSpec). record v { provider_id = i' }) e
      ∙ ap (λ q. record n { provider_id = q }) (ap (λ (v : WxOneMachineSpec). v.provider_id) e'))

pub read_set_provider :
    (x y : MachineSpecMem) (k : Heap Cell) (n o : WxOneMachineSpec)
    → read_machine_spec x k ≡ some n
    → read_machine_spec y k ≡ some o
    → read_machine_spec (set_provider x y) k ≡ some (with_provider_of o n)
read_set_provider x y k n o h h' =
    provider_lem x y (read_pointer Slots.text x.provider_id k)
      (read_pointer Slots.text y.provider_id k) n o h h'

-- The spec of an object that was read.
pub cluster-spec :
    (x : ClusterMem) (k : Heap Cell) (n : Typed WxOneCluster)
    → read_cluster x k ≡ some n
    → read_cluster_spec x.spec k ≡ some n.object.spec
cluster-spec x k n h =
    sym (some_id (read_cluster_spec x.spec k))
    ∙ read_second
        (λ a b. record {
          type_meta = x.type_meta;
          object = record { meta = a; spec = b; status = x.status };
        })
        (λ v. v.object.spec) (read_object_meta x.meta k) (read_cluster_spec x.spec k) n (λ b. b) h
        (λ a b. refl)

machine_lem :
    (x : MachineMem) (m : Option ObjectMeta) (s : Option WxOneMachineSpec)
    (st : Option WxOneMachineStatus) (n : Typed WxOneMachine)
    → and_then (and_then m (λ a. and_then s (λ b. some (a, b)))) (λ (a, b). and_then st (λ c.
      some
        (record { type_meta = x.type_meta; object = record { meta = a; spec = b; status = c } })))
      ≡ some n
    → s ≡ some n.object.spec
machine_lem x none s st n h = cc
machine_lem x (some a) none st n h = cc
machine_lem x (some a) (some b) none n h = cc
machine_lem x (some a) (some b) (some c) n h =
    let made : Typed WxOneMachine = record {
      type_meta = x.type_meta;
      object = record { meta = a; spec = b; status = c };
    } in
    let e : made ≡ n = cc h in ap (λ (v : Typed WxOneMachine). some v.object.spec) e

pub machine-spec :
    (x : MachineMem) (k : Heap Cell) (n : Typed WxOneMachine)
    → read_machine x k ≡ some n
    → read_machine_spec x.spec k ≡ some n.object.spec
machine-spec x k n h =
    machine_lem x (read_object_meta x.meta k) (read_machine_spec x.spec k)
      (read_machine_status x.status k) n h
