-- ===== src/Utils/Attributes.antt =====
-- utils.rs: `initialize_object_attributes`, with the attributes that thread.rs makes by it, and the
-- number of the current thread.
use ksync.Base.{ℕ, null}
use ksync.Utils.ControlCode.{handle_to_ulong}

-- `OBJECT_ATTRIBUTES`, of another crate; pointers and handles are numbers.
pub record ObjectAttributes : Type 0 where
  pub length : ℕ
  pub root_directory : ℕ
  pub attributes : ℕ
  pub object_name : ℕ
  pub security_descriptor : ℕ
  pub security_quality_of_service : ℕ

-- The macro with four arguments; `size` is the size of the record.
unfoldable pub initialize_object_attributes : (size n a r s : ℕ) → ObjectAttributes
initialize_object_attributes size n a r s = record {
  length = size;
  root_directory = r;
  attributes = a;
  object_name = n;
  security_descriptor = s;
  security_quality_of_service = null;
}

abbrev pub obj_kernel_handle : ℕ
obj_kernel_handle = 0x200

-- The attributes in `spawn`.
unfoldable pub thread_attributes : (size : ℕ) → ObjectAttributes
unfolding initialize_object_attributes
thread_attributes size = initialize_object_attributes size null obj_kernel_handle null null

-- `this_thread::id`, where the kernel answers `current` for the current thread.
unfoldable pub id : (current : ℕ) → ℕ
unfolding handle_to_ulong
id current = handle_to_ulong current
