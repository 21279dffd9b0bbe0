-- ===== src/Memory/Slots/Machine.antt =====
-- The cells of WXOneMachine and WXOneMachineTemplate.
use capi_wx_one.Base.{Option, some, none, List, refl}
use capi_wx_one.Memory.Heap.{Slot}
use capi_wx_one.Memory.Layout.{
  MachineSpecMem, MachineStatusMem, MachineMem, TemplateStatus, MachineTemplateResourceMem,
  MachineTemplateSpecMem, MachineTemplateMem, ListMem,
}
use capi_wx_one.Memory.Contents.{Cell}

abbrev as_machine : Cell → Option MachineMem
as_machine (Cell.machine x) = some x
as_machine _ = none

abbrev pub machine : Slot Cell MachineMem
machine = record { wrap = Cell.machine; unwrap = as_machine; unwrap-wrap = λ x. refl }

abbrev as_machine_list : Cell → Option ListMem
as_machine_list (Cell.machine_list x) = some x
as_machine_list _ = none

abbrev pub machine_list : Slot Cell ListMem
machine_list = record {
  wrap = Cell.machine_list;
  unwrap = as_machine_list;
  unwrap-wrap = λ x. refl;
}

abbrev as_machine_spec : Cell → Option MachineSpecMem
as_machine_spec (Cell.machine_spec x) = some x
as_machine_spec _ = none

abbrev pub machine_spec : Slot Cell MachineSpecMem
machine_spec = record {
  wrap = Cell.machine_spec;
  unwrap = as_machine_spec;
  unwrap-wrap = λ x. refl;
}

abbrev as_machine_status : Cell → Option MachineStatusMem
as_machine_status (Cell.machine_status x) = some x
as_machine_status _ = none

abbrev pub machine_status : Slot Cell MachineStatusMem
machine_status = record {
  wrap = Cell.machine_status;
  unwrap = as_machine_status;
  unwrap-wrap = λ x. refl;
}

abbrev as_machine_template : Cell → Option MachineTemplateMem
as_machine_template (Cell.machine_template x) = some x
as_machine_template _ = none

abbrev pub machine_template : Slot Cell MachineTemplateMem
machine_template = record {
  wrap = Cell.machine_template;
  unwrap = as_machine_template;
  unwrap-wrap = λ x. refl;
}

abbrev as_machine_template_list : Cell → Option ListMem
as_machine_template_list (Cell.machine_template_list x) = some x
as_machine_template_list _ = none

abbrev pub machine_template_list : Slot Cell ListMem
machine_template_list = record {
  wrap = Cell.machine_template_list;
  unwrap = as_machine_template_list;
  unwrap-wrap = λ x. refl;
}

abbrev as_machine_template_resource : Cell → Option MachineTemplateResourceMem
as_machine_template_resource (Cell.machine_template_resource x) = some x
as_machine_template_resource _ = none

abbrev pub machine_template_resource : Slot Cell MachineTemplateResourceMem
machine_template_resource = record {
  wrap = Cell.machine_template_resource;
  unwrap = as_machine_template_resource;
  unwrap-wrap = λ x. refl;
}

abbrev as_machine_template_spec : Cell → Option MachineTemplateSpecMem
as_machine_template_spec (Cell.machine_template_spec x) = some x
as_machine_template_spec _ = none

abbrev pub machine_template_spec : Slot Cell MachineTemplateSpecMem
machine_template_spec = record {
  wrap = Cell.machine_template_spec;
  unwrap = as_machine_template_spec;
  unwrap-wrap = λ x. refl;
}

abbrev as_machine_template_status : Cell → Option TemplateStatus
as_machine_template_status (Cell.machine_template_status x) = some x
as_machine_template_status _ = none

abbrev pub machine_template_status : Slot Cell TemplateStatus
machine_template_status = record {
  wrap = Cell.machine_template_status;
  unwrap = as_machine_template_status;
  unwrap-wrap = λ x. refl;
}

abbrev as_machine_items : Cell → Option (List MachineMem)
as_machine_items (Cell.machine_items x) = some x
as_machine_items _ = none

abbrev pub machine_items : Slot Cell (List MachineMem)
machine_items = record {
  wrap = Cell.machine_items;
  unwrap = as_machine_items;
  unwrap-wrap = λ x. refl;
}

abbrev as_machine_template_items : Cell → Option (List MachineTemplateMem)
as_machine_template_items (Cell.machine_template_items x) = some x
as_machine_template_items _ = none

abbrev pub machine_template_items : Slot Cell (List MachineTemplateMem)
machine_template_items = record {
  wrap = Cell.machine_template_items;
  unwrap = as_machine_template_items;
  unwrap-wrap = λ x. refl;
}
