-- ===== src/Tensor.antt =====
-- modules/tensorflow/backend.c: the tensors of library(tensorflow), over TensorFlow's C API.
pub mod Slots
pub mod Searching
pub mod Freeing
pub mod Recording
mod Examples
pub mod Integers
pub mod Shapes
pub mod Rules
pub mod Making
pub mod Producing
pub mod Slicing
pub mod Stepping
pub mod Reaching
pub mod Scalars
pub mod Closing
pub mod Shuffling
