-- ===== src/Tests/Memory.antt =====
-- Copies and validators at a concrete memory: two clusters that share a secret reference and their
-- subnets, and a list of both.
use capi_wx_one.Base.{zero, suc, Option, none, some, List, [], ◌∷◌, ◌≡◌, refl, ap, arith}
use capi_wx_one.Api.{ApiEndpoint, WxOneCluster, LocalSecretReference, Subnet}
use capi_wx_one.Memory.Heap.{Ptr, Heap, M, pure, ◌>>=◌, read, load, allocate}
use capi_wx_one.Memory.Separation.{Agree, Reads, Returns, Fresh, Copies}
use capi_wx_one.Memory.Contents.{Cell}
use capi_wx_one.Memory.Slots
use capi_wx_one.Memory.Copying.{copy_pointer, read_pointer}
use capi_wx_one.Memory.Shapes.{Copies-pointer, Returns-load, allocated-Fresh}
use capi_wx_one.Memory.Structs.{Returns-both, Returns-one}
use capi_wx_one.Memory.Layout.{
  TypeMeta, ObjectMetaMem, TemplateMetaMem, ListMetaMem, ClusterMem, ListMem,
}
use capi_wx_one.Memory.Readings.{
  Typed, Listed, read_object_meta, read_template_meta, read_list_meta,
}
use capi_wx_one.Memory.DeepCopyInto.{Upstream}
use capi_wx_one.Memory.Copied.{UpstreamCopies}
use capi_wx_one.Memory.Kinds.{
  cluster_kind, object_at, list_at, copy_object, copy_list, update, admit,
}
use capi_wx_one.Memory.Independent.{deep_copy-Fresh, deep_copy_list-Fresh}
use capi_wx_one.Memory.Refined.{validate_update-Agree}
use capi_wx_one.Tests.{full_cluster}

-- DeepCopyInto of the metadata that copies every field.
copy_texts : Ptr → M Cell Ptr
copy_texts p = do xs ← load Slots.texts p; allocate Slots.texts xs

copy_texts-Copies : Copies (read Slots.texts) copy_texts
unfolding copy_texts
copy_texts-Copies p v h reads =
    Returns-load Slots.texts (allocate Slots.texts) p v h (reads h (λ q from to. refl))
      (record { holds = allocated-Fresh Slots.texts v h })

copy_meta : ObjectMetaMem → M Cell ObjectMetaMem
unfolding copy_texts
copy_meta x = do
  finalizers ← copy_texts x.finalizers
  time ← copy_pointer Slots.number x.deletion_timestamp
  pure (record x { finalizers = finalizers; deletion_timestamp = time })

copy_meta-Copies : Copies read_object_meta copy_meta
unfolding copy_meta
copy_meta-Copies x v h reads =
    Returns-both (read Slots.texts) (read_pointer Slots.number) copy_texts
      (copy_pointer Slots.number)
      (λ a b. record {
        name = x.name;
        namespace = x.namespace;
        finalizers = a;
        deletion_timestamp = b;
      })
      (λ a a' b b' e. (ap (λ v. v.finalizers) e, ap (λ v. v.deletion_timestamp) e)) x.finalizers
      x.deletion_timestamp v h _ read_object_meta (copy_texts-Copies x.finalizers)
      (Copies-pointer Slots.number x.deletion_timestamp) reads (λ y z k. refl)

copy_template_meta : TemplateMetaMem → M Cell TemplateMetaMem
copy_template_meta x = do
  labels ← copy_pointer Slots.dict x.labels
  notes ← copy_pointer Slots.dict x.annotations
  pure (record { labels = labels; annotations = notes })

copy_template_meta-Copies : Copies read_template_meta copy_template_meta
unfolding copy_template_meta
copy_template_meta-Copies x v h reads =
    Returns-both (read_pointer Slots.dict) (read_pointer Slots.dict) (copy_pointer Slots.dict)
      (copy_pointer Slots.dict) (λ a b. record { labels = a; annotations = b })
      (λ a a' b b' e. (ap (λ v. v.labels) e, ap (λ v. v.annotations) e)) x.labels x.annotations v h
      _ read_template_meta (Copies-pointer Slots.dict x.labels)
      (Copies-pointer Slots.dict x.annotations) reads (λ y z k. refl)

copy_list_meta : ListMetaMem → M Cell ListMetaMem
copy_list_meta x = do
  n ← copy_pointer Slots.number x.remaining_item_count
  pure (record x { remaining_item_count = n })

copy_list_meta-Copies : Copies read_list_meta copy_list_meta
unfolding copy_list_meta
copy_list_meta-Copies x v h reads =
    Returns-one (read_pointer Slots.number) (copy_pointer Slots.number)
      (Copies-pointer Slots.number)
      (λ a. record { resource_version = x.resource_version; remaining_item_count = a })
      (λ a b e. ap (λ v. v.remaining_item_count) e) x.remaining_item_count v h _ read_list_meta
      reads (λ y k. refl)

upstream : Upstream
unfolding copy_meta copy_template_meta copy_list_meta
upstream = record {
  object_meta = copy_meta;
  template_meta = copy_template_meta;
  list_meta = copy_list_meta;
}

upstream-Copies : UpstreamCopies upstream
unfolding upstream
upstream-Copies = record {
  object_meta = copy_meta-Copies;
  template_meta = copy_template_meta-Copies;
  list_meta = copy_list_meta-Copies;
}

abbrev cluster_type : TypeMeta
cluster_type = record { kind = "WXOneCluster"; api_version = "v1beta1" }

abbrev secret : LocalSecretReference
secret = record { name = "credentials" }

abbrev subnet : Subnet
subnet = record { name = "nodes"; ip_version = "IPv4"; cidr = "10.0.0.0/24" }

-- The cluster in memory with this endpoint: its pointers lead to the cells 0 to 2.
abbrev cluster_cell : ApiEndpoint → ClusterMem
cluster_cell endpoint = record {
  type_meta = cluster_type;
  meta = record { name = "c"; namespace = "default"; finalizers = 0; deletion_timestamp = none };
  spec = record {
    project = full_cluster.spec.project;
    availability_zone = full_cluster.spec.availability_zone;
    network = record { name = "net"; subnets = some 1 };
    ssh_key = full_cluster.spec.ssh_key;
    control_plane_endpoint = endpoint;
    credentials_secret_ref = some 2;
  };
  status = full_cluster.status;
}

-- What it stands for.
abbrev cluster_value : ApiEndpoint → Typed WxOneCluster
cluster_value endpoint = record {
  type_meta = cluster_type;
  object = record {
    meta = record {
      name = "c";
      namespace = "default";
      finalizers = "kept" ∷ [];
      deletion_timestamp = none;
    };
    spec = record {
      project = full_cluster.spec.project;
      availability_zone = full_cluster.spec.availability_zone;
      network = record { name = "net"; subnets = some (subnet ∷ []) };
      ssh_key = full_cluster.spec.ssh_key;
      control_plane_endpoint = endpoint;
      credentials_secret_ref = some secret;
    };
    status = full_cluster.status;
  };
}

abbrev unset : ApiEndpoint
unset = record { host = ""; port = 0 }

abbrev set : ApiEndpoint
set = record { host = "192.0.2.7"; port = 6443 }

abbrev list_cell : ListMem
list_cell = record {
  type_meta = cluster_type;
  list_meta = record { resource_version = "1"; remaining_item_count = none };
  items = some 5;
}

abbrev cell_at : List Cell → Ptr → Option Cell
cell_at [] p = none
cell_at (c ∷ cs) zero = some c
cell_at (c ∷ cs) (suc p) = cell_at cs p

abbrev memory : Heap Cell
memory = record {
  next = 7;
  cell = cell_at (
      Cell.texts ("kept" ∷ [])
      ∷ Cell.subnets (subnet ∷ [])
      ∷ Cell.local_secret_reference secret
      ∷ Cell.cluster (cluster_cell unset)
      ∷ Cell.cluster (cluster_cell set)
      ∷ Cell.cluster_items (cluster_cell unset ∷ cluster_cell set ∷ [])
      ∷ Cell.cluster_list list_cell
      ∷ []);
}

first-Reads : Reads 0 7 memory (object_at cluster_kind (some 3)) (some (cluster_value unset))
first-Reads k agree = rw (
  agree 3 (omega arith) (omega arith),
  agree 0 (omega arith) (omega arith),
  agree 1 (omega arith) (omega arith),
  agree 2 (omega arith) (omega arith),
)

second-Reads : Reads 0 7 memory (object_at cluster_kind (some 4)) (some (cluster_value set))
second-Reads k agree = rw (
  agree 4 (omega arith) (omega arith),
  agree 0 (omega arith) (omega arith),
  agree 1 (omega arith) (omega arith),
  agree 2 (omega arith) (omega arith),
)

abbrev list_value : Listed WxOneCluster
list_value = record {
  type_meta = cluster_type;
  list_meta = record { resource_version = "1"; remaining_item_count = none };
  items = some (cluster_value unset ∷ cluster_value set ∷ []);
}

list-Reads : Reads 0 7 memory (list_at cluster_kind (some 6)) (some list_value)
list-Reads k agree = rw (
  agree 6 (omega arith) (omega arith),
  agree 5 (omega arith) (omega arith),
  agree 0 (omega arith) (omega arith),
  agree 1 (omega arith) (omega arith),
  agree 2 (omega arith) (omega arith),
)

deep_copy-Fresh_example :
    Returns
      (λ q k. Fresh memory (object_at cluster_kind q) (some (cluster_value unset)) k)
      (copy_object upstream cluster_kind (some 3) memory)
deep_copy-Fresh_example =
    deep_copy-Fresh upstream upstream-Copies cluster_kind (some 3) (some (cluster_value unset))
      memory first-Reads

deep_copy_list-Fresh_example :
    Returns
      (λ q k. Fresh memory (list_at cluster_kind q) (some list_value) k)
      (copy_list upstream cluster_kind (some 6) memory)
deep_copy_list-Fresh_example =
    deep_copy_list-Fresh upstream upstream-Copies cluster_kind (some 6) (some list_value) memory
      list-Reads

validate_update-Agree_example :
    Returns
      (λ a k.
        (a ≡ update cluster_kind (cluster_value set).object (cluster_value unset).object)
        × Agree 0 7 memory k)
      (admit upstream cluster_kind 3 4 memory)
validate_update-Agree_example =
    validate_update-Agree upstream upstream-Copies cluster_kind 3 4 (cluster_value unset)
      (cluster_value set) memory first-Reads second-Reads
