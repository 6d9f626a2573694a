-- ===== src/Container.antt =====
-- common/container: the queue, the ordered map, the set and the caches.
pub mod Queue
pub mod SortedMap
pub mod LruCache
pub mod LruCache2q
pub mod ShardLruCache
pub mod Set
