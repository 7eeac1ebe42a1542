-- ===== src/Tests.antt =====
-- The theorems at concrete inputs, and runs of the model on small data.
mod ArrayTests
mod HeapTests
mod ListTests
mod BitmapTests
mod ThreadTests
mod SchedulerTests
mod TimeTests
mod StringTests
mod PrintTests
mod SyncTests
mod HashTests
mod ProcessTests
mod MemoryTests
mod PagingTests
