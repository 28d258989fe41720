-- ===== src/Workshop.antt =====
-- src/Host/Workshop/DownloadQueue.cpp: which workshop addons each client still has to download.
pub mod Queue
pub mod AddonList
